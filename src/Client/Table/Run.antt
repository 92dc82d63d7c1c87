-- ===== src/Client/Table/Run.antt =====
-- How the parts of CBB_client::_open run, for a path that is not open here.
use huron_fs.Prelude.{ℕ, suc, ◌≡◌, refl, ap, ◌∙◌, true, false, none, some, List, [], ◌∷◌, arith}
use huron_fs.Prelude.Int.{ℤ, pos}
use huron_fs.Prelude.Map.{ℕ_key, ℤ_key, path_key, FilePath, find, set, insert, find-set_self}
use huron_fs.Exec.{returns, ◌>>◌, pure, deref, gets, at}
use huron_fs.Exec.Laws.{run-bind, run-then, run-deref, run-at}
use huron_fs.Master.{Stat, Word, num, attr}
use huron_fs.Master.Numbers.{scan_twice, mark}
use huron_fs.Client.{Client, Network, FileMeta, OpenedFileInfo}
use huron_fs.Client.Code
use huron_fs.Client.Query.{
  code, query, pop_int, pop_size, recv_attr, check_init, master_number_of, master_handle_of,
}
use huron_fs.Client.Query.Laws.{
  MasterOf, number_of, run-check_init, run-master_number_of, run-master_handle_of, run-query,
}
use huron_fs.Client.Table.{
  opened_at, fid_at, fd_to_fid, lookup_fd, fid_to_fd, new_file_meta, read_meta, put_meta, taken,
  get_fid_below, get_fid, create_new_file, enter_descriptor, start_point_of, open_words,
  remote_open, open_remote, open_with, open_once,
}

pub fd_to_fid-fid_to_fd : (fid : ℕ) → fd_to_fid (fid_to_fd fid) ≡ some fid
unfolding fd_to_fid
fd_to_fid-fid_to_fd fid = ground arith

-- What the answer to an OPEN_FILE query tells of a file
pub record Remote : Type 0 where
  pub file_no : ℤ
  pub block_size : ℕ
  pub file_stat : Stat

abbrev pub remote_words : Remote → List Word → List Word
remote_words r rest = code 0 ∷ num r.file_no ∷ num (pos r.block_size) ∷ attr r.file_stat ∷ rest

-- The file_meta of a path with one descriptor
abbrev pub meta_of : Remote → ℕ → FilePath → ℕ → FileMeta
meta_of r number path fid = record {
  remote_file_no = r.file_no;
  open_count = 1;
  block_size = r.block_size;
  file_stat = r.file_stat;
  opened_fd = (fid_to_fd fid, tt) ∷ [];
  corresponding_scbb = number;
  io_node_list_cache = [];
  block_list = [];
  need_update = false;
  path = some path;
}

abbrev pub descriptor_of : Remote → ℕ → ℕ → FilePath → ℕ → ℕ → OpenedFileInfo
descriptor_of r flag number path fid a = record {
  current_point = start_point_of flag (meta_of r number path fid);
  flag = flag;
  file_meta = a;
}

-- A client after it has opened a path under a number
abbrev pub opened_client :
    {Peer : Type 0} → Client Peer → Remote → ℕ → ℕ → FilePath → ℕ → Peer → Client Peer
opened_client s r flag number path fid p = record s {
  fid_now = fid;
  opened_file = mark fid true s.opened_file;
  path_file_meta_map = insert path s.next_address s.path_file_meta_map;
  heap = set s.next_address (meta_of r number path fid) s.heap;
  next_address = suc s.next_address;
  file_list = insert fid (descriptor_of r flag number path fid s.next_address) s.file_list;
  errno = pos 0;
  peer = p;
}

module _ {Peer : Type 0} where
  pub run-read_meta :
      (a : ℕ) (f : FileMeta) (s : Client Peer)
      → find a s.heap ≡ some f
      → read_meta a s ≡ returns f s
  run-read_meta a f s h =
      run-bind (gets (λ t. find a t.heap)) deref (find a s.heap) s s refl
      ∙ run-deref (find a s.heap) f s h

  pub run-opened_at :
      (fid : ℕ) (file : OpenedFileInfo) (s : Client Peer)
      → find fid s.file_list ≡ some file
      → opened_at (fid_to_fd fid) s ≡ returns file s
  unfolding lookup_fd
  run-opened_at fid file s h =
      run-bind (gets (lookup_fd (fid_to_fd fid))) at (lookup_fd (fid_to_fd fid) s) s s refl
      ∙ run-at (lookup_fd (fid_to_fd fid) s) file s (
          ap (λ o. elim o [ none ↦ none | some k ↦ find k s.file_list ]) (fd_to_fid-fid_to_fd fid)
          ∙ h)

  pub run-fid_at : (fid : ℕ) (s : Client Peer) → fid_at (fid_to_fd fid) s ≡ returns fid s
  run-fid_at fid s = run-at (fd_to_fid (fid_to_fd fid)) fid s (fd_to_fid-fid_to_fd fid)

  pub run-get_fid :
      (n : ℕ) (s : Client Peer)
      → scan_twice Code.max_file s.fid_now s.opened_file ≡ some n
      → get_fid s
        ≡ returns (some n) (record s { fid_now = n; opened_file = mark n true s.opened_file })
  unfolding get_fid get_fid_below taken
  run-get_fid n s h = ap (taken s) h

  module _ (net : Network Peer) (path : FilePath) (flag mode : ℕ) where
    -- _open with the number that _get_fid gave
    pub run-open_once :
        (n : ℕ) (s : Client Peer)
        → s.thread_started ≡ true
        → scan_twice Code.max_file s.fid_now s.opened_file ≡ some n
        → open_once net path flag mode s
          ≡ open_with net path flag mode
              (some n)
              (record s { fid_now = n; opened_file = mark n true s.opened_file })
    unfolding open_once
    run-open_once n s started free =
        run-then (check_init net) _ tt s s (run-check_init net s started)
        ∙ run-bind get_fid _ (some n) s
            (record s { fid_now = n; opened_file = mark n true s.opened_file })
            (run-get_fid n s free)

    -- The client after _create_new_file
    abbrev pub created_client : Remote → ℕ → Peer → Client Peer → Client Peer
    created_client r number p s = record s {
      peer = p;
      heap = set s.next_address (new_file_meta r.file_no r.block_size r.file_stat number) s.heap;
      next_address = suc s.next_address;
    }

    pub run-remote_open :
        (s : Client Peer) (m : MasterOf net path s) (r : Remote) (rest : List Word) (bytes : List ℕ)
        (p : Peer)
        → net.ask m.scbb.master_handle (open_words path flag mode) [] s.peer
          ≡ (some (record { words = remote_words r rest; bytes = bytes }), p)
        → remote_open net path flag mode s
          ≡ returns (some s.next_address) (created_client r (number_of net path s m) p s)
    unfolding remote_open create_new_file pop_int pop_size recv_attr
    run-remote_open s m r rest bytes p e =
        run-bind (master_number_of net path) _ (number_of net path s m) s s
          (run-master_number_of net path s m)
        ∙ run-bind (master_handle_of (number_of net path s m)) _ m.scbb.master_handle s s
            (run-master_handle_of net (number_of net path s m) m.scbb s m.master)
        ∙ run-bind (query net m.scbb.master_handle (open_words path flag mode) []) _
            (record { words = remote_words r rest; bytes = bytes }) s (record s { peer = p })
            (run-query net m.scbb.master_handle (open_words path flag mode) [] s
              (record { words = remote_words r rest; bytes = bytes }) p e)

    pub run-open_remote :
        (s : Client Peer) (m : MasterOf net path s) (r : Remote) (rest : List Word) (bytes : List ℕ)
        (p : Peer)
        → net.ask m.scbb.master_handle (open_words path flag mode) [] s.peer
          ≡ (some (record { words = remote_words r rest; bytes = bytes }), p)
        → open_remote net path flag mode s
          ≡ returns s.next_address (
              let new = new_file_meta r.file_no r.block_size r.file_stat (number_of net path s m) in
              record (created_client r (number_of net path s m) p s) {
                path_file_meta_map = insert path s.next_address s.path_file_meta_map;
                heap =
                    set s.next_address
                      (record new { path = some path })
                      (set s.next_address new s.heap);
              })
    unfolding open_remote
    run-open_remote s m r rest bytes p e =
        let number : ℕ = number_of net path s m in
        let a : ℕ = s.next_address in
        let new : FileMeta = new_file_meta r.file_no r.block_size r.file_stat number in
        let t : Client Peer = created_client r number p s in
        let u : Client Peer = record t {
          path_file_meta_map = insert path a s.path_file_meta_map;
        } in
        run-bind (remote_open net path flag mode) _ (some a) s t
          (run-remote_open s m r rest bytes p e)
        ∙ run-bind (read_meta a) (λ f. put_meta a (record f { path = some path }) >> pure a) new u u
            (run-read_meta a new u (find-set_self a new s.heap))

    pub run-enter_descriptor :
        (fid a : ℕ) (f : FileMeta) (s : Client Peer)
        → find a s.heap ≡ some f
        → enter_descriptor fid flag a s
          ≡ returns (fid_to_fd fid) (record s {
            file_list =
                insert fid
                  (record { current_point = start_point_of flag f; flag = flag; file_meta = a })
                  s.file_list;
            heap =
                set a
                  (record f {
                    open_count = suc f.open_count;
                    opened_fd = set (fid_to_fd fid) tt f.opened_fd;
                  })
                  s.heap;
            errno = pos 0;
          })
    unfolding enter_descriptor
    run-enter_descriptor fid a f s h = run-bind (read_meta a) _ f s s (run-read_meta a f s h)
