-- ===== src/Client/Table/Open.antt =====
-- CBB_client::_open of a path that is not open here.
use huron_fs.Prelude.{ℕ, suc, ◌≡◌, ap, ◌∙◌, true, false, none, some, List, [], ◌∷◌}
use huron_fs.Prelude.Int.{ℤ, pos}
use huron_fs.Prelude.Map.{
  ℕ_key, ℤ_key, path_key, FilePath, find, set, insert, find-set_self, set-set, same,
}
use huron_fs.Exec.{returns, undefined, ◌>>=◌, pure}
use huron_fs.Exec.Laws.{run-bind, run-bind_undefined, run-if_false}
use huron_fs.Master.{Word, num, success}
use huron_fs.Master.Numbers.{scan_twice, mark}
use huron_fs.Client.{Client, Network, FileMeta}
use huron_fs.Client.Code
use huron_fs.Client.Query.{query, pop_int, master_number_of, master_handle_of, negate}
use huron_fs.Client.Query.Laws.{
  MasterOf, number_of, run-master_number_of, run-master_handle_of, run-query,
}
use huron_fs.Client.Table.{
  fid_to_fd, new_file_meta, enter_descriptor, open_words, remote_open, open_remote, file_of,
  open_with, open_once,
}
use huron_fs.Client.Table.Run.{
  Remote, remote_words, meta_of, descriptor_of, opened_client, run-open_once, run-open_remote,
  run-enter_descriptor,
}

abbrev pub at_new :
    {Peer : Type 0} (net : Network Peer) (path : FilePath) (n : ℕ) (s : Client Peer)
    → MasterOf net path s
    → MasterOf net path (record s { fid_now = n; opened_file = mark n true s.opened_file })
at_new net path n s m = record {
  started = m.started;
  others = m.others;
  total = m.total;
  scbb = m.scbb;
  master = m.master;
}

pub open_once-Opened :
    {Peer : Type 0} (net : Network Peer) (path : FilePath) (flag mode n : ℕ) (s : Client Peer)
    (m : MasterOf net path s) (r : Remote) (rest : List Word) (bytes : List ℕ) (p : Peer)
    → scan_twice Code.max_file s.fid_now s.opened_file ≡ some n
    → find path s.path_file_meta_map ≡ none
    → net.ask m.scbb.master_handle (open_words path flag mode) [] s.peer
      ≡ (some (record { words = remote_words r rest; bytes = bytes }), p)
    → open_once net path flag mode s
      ≡ returns (some (fid_to_fd n)) (opened_client s r flag (number_of net path s m) path n p)
unfolding open_with file_of set
open_once-Opened net path flag mode n s m r rest bytes p free unknown e =
    let number : ℕ = number_of net path s m in
    let a : ℕ = s.next_address in
    let s1 : Client _ = record s { fid_now = n; opened_file = mark n true s.opened_file } in
    let new : FileMeta = new_file_meta r.file_no r.block_size r.file_stat number in
    let named : FileMeta = record new { path = some path } in
    let t : Client _ = record s1 {
      peer = p;
      heap = set a named (set a new s.heap);
      next_address = suc a;
      path_file_meta_map = insert path a s.path_file_meta_map;
    } in
    let full : FileMeta = meta_of r number path n in
    run-open_once net path flag mode n s m.started free
    ∙ ap
        (λ known.
          (file_of net path flag mode known >>= λ b.
          enter_descriptor n flag b >>= λ fd. pure (some fd))
            s1)
        unknown
    ∙ run-bind (open_remote net path flag mode) _ a s1 t
        (run-open_remote net path flag mode s1 (at_new net path n s m) r rest bytes p e)
    ∙ run-bind (enter_descriptor n flag a) (λ fd. pure (some fd)) (fid_to_fd n) t
        (record t {
          file_list = insert n (descriptor_of r flag number path n a) s.file_list;
          heap = set a full t.heap;
          errno = pos 0;
        })
        (run-enter_descriptor net path flag mode n a named t
          (find-set_self a named (set a new s.heap)))
    ∙ ap
        (λ h.
          returns (some (fid_to_fd n))
            (record (opened_client s r flag number path n p) { heap = h }))
        (set-set a full named (set a new s.heap) ∙ set-set a full new s.heap)

-- _open of a path that is not open in a registered client, and that its Master refuses, reads the
-- null pointer that remote_open returns.
pub open_once-Refused :
    {Peer : Type 0} (net : Network Peer) (path : FilePath) (flag mode n : ℕ) (s : Client Peer)
    (m : MasterOf net path s) (ret : ℤ) (rest : List Word) (bytes : List ℕ) (p : Peer)
    → scan_twice Code.max_file s.fid_now s.opened_file ≡ some n
    → find path s.path_file_meta_map ≡ none
    → net.ask m.scbb.master_handle (open_words path flag mode) [] s.peer
      ≡ (some (record { words = num ret ∷ rest; bytes = bytes }), p)
    → same ret success ≡ false
    → open_once net path flag mode s ≡ undefined
unfolding open_with file_of open_remote remote_open pop_int
open_once-Refused net path flag mode n s m ret rest bytes p free unknown e refused =
    let number : ℕ = number_of net path s m in
    let s1 : Client _ = record s { fid_now = n; opened_file = mark n true s.opened_file } in
    let m1 = at_new net path n s m in
    let remote : remote_open net path flag mode s1
        ≡ returns none (record s1 { peer = p; errno = negate ret }) =
      run-bind (master_number_of net path) _ number s1 s1 (run-master_number_of net path s1 m1)
      ∙ run-bind (master_handle_of number) _ m.scbb.master_handle s1 s1
          (run-master_handle_of net number m.scbb s1 m.master)
      ∙ run-bind (query net m.scbb.master_handle (open_words path flag mode) []) _
          (record { words = num ret ∷ rest; bytes = bytes }) s1 (record s1 { peer = p })
          (run-query net m.scbb.master_handle (open_words path flag mode) [] s1
            (record { words = num ret ∷ rest; bytes = bytes }) p e)
      ∙ run-if_false (same ret success) _ _ (record s1 { peer = p }) refused in
    run-open_once net path flag mode n s m.started free
    ∙ ap
        (λ known.
          (file_of net path flag mode known >>= λ b.
          enter_descriptor n flag b >>= λ fd. pure (some fd))
            s1)
        unknown
    ∙ run-bind_undefined (open_remote net path flag mode) _ s1 (
        run-bind (remote_open net path flag mode) _ none s1
          (record s1 { peer = p; errno = negate ret }) remote)
