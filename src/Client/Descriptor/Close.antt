-- ===== src/Client/Descriptor/Close.antt =====
-- CBB_client::_close of the last descriptor of a file, and after CBB_client::_open.
use huron_fs.Prelude.{ℕ, ◌≡◌, ap, ◌∙◌, true, false, some, List, [], ◌∷◌, leb}
use huron_fs.Prelude.Int.{pos}
use huron_fs.Prelude.Map.{ℕ_key, path_key, FilePath, find, set, erase, find-set_self, erase-set}
use huron_fs.Exec.{returns, pure, deref}
use huron_fs.Exec.Laws.{run-bind, run-then, run-deref, run-if_true, run-catch_returns}
use huron_fs.Master.{Word, num}
use huron_fs.Master.Numbers.{mark}
use huron_fs.Client.{Client, Network, FileMeta, OpenedFileInfo, Scbb}
use huron_fs.Client.Code
use huron_fs.Client.Query.{code, query, check_init, pop_int}
use huron_fs.Client.Query.Laws.{run-check_init, run-query}
use huron_fs.Client.Table.{
  opened_at, fid_at, fid_to_fd, read_meta, delete_file_meta, delete_open_file,
}
use huron_fs.Client.Table.Run.{run-read_meta, run-opened_at, run-fid_at}
use huron_fs.Client.Blocks.{scbb_of, master_handle_of_meta}
use huron_fs.Client.Descriptor.{master_handle_from_fd, file_query, close_opened, close_once}

-- A descriptor with its file, the file's only one, and the Master of the file
pub record LastOpen {Peer : Type 0} (fid : ℕ) (s : Client Peer) : Type 0 where
  pub file : OpenedFileInfo
  pub meta : FileMeta
  pub scbb : Scbb
  pub path : FilePath
  pub found : find fid s.file_list ≡ some file
  pub here : find file.file_meta s.heap ≡ some meta
  pub master : find meta.corresponding_scbb s.master_handle_list ≡ some scbb
  pub last : leb meta.open_count 1 ≡ true
  pub named : meta.path ≡ some path

module _ {Peer : Type 0} where
  -- The client after the close of a file's last descriptor
  abbrev pub closed_client : ℕ → ℕ → FilePath → Peer → Client Peer → Client Peer
  closed_client fid a path p s = record s {
    peer = p;
    opened_file = mark fid false s.opened_file;
    file_list = erase fid s.file_list;
    path_file_meta_map = erase path s.path_file_meta_map;
    heap = erase a s.heap;
  }

  run-delete_file_meta :
      (a : ℕ) (f : FileMeta) (path : FilePath) (s : Client Peer)
      → find a s.heap ≡ some f
      → leb f.open_count 1 ≡ true
      → f.path ≡ some path
      → delete_file_meta a s
        ≡ returns tt (record s {
          path_file_meta_map = erase path s.path_file_meta_map;
          heap = erase a s.heap;
        })
  unfolding delete_file_meta
  run-delete_file_meta a f path s here last named =
      run-bind (read_meta a) _ f s s (run-read_meta a f s here)
      ∙ run-if_true (leb f.open_count 1) _ _ s last
      ∙ run-bind (deref f.path) _ path s s (run-deref f.path path s named)

  run-delete_open_file :
      (fid : ℕ) (s : Client Peer) (o : LastOpen fid s)
      → delete_open_file fid o.file s
        ≡ returns tt (closed_client fid o.file.file_meta o.path s.peer s)
  unfolding delete_open_file
  run-delete_open_file fid s o =
      let a : ℕ = o.file.file_meta in
      let s1 : Client Peer = record s {
        opened_file = mark fid false s.opened_file;
        file_list = erase fid s.file_list;
      } in
      let f : FileMeta = record o.meta { opened_fd = erase (fid_to_fd fid) o.meta.opened_fd } in
      run-bind (read_meta a) _ o.meta s1 s1 (run-read_meta a o.meta s1 o.here)
      ∙ run-delete_file_meta a f o.path (record s1 { heap = set a f s.heap })
          (find-set_self a f s.heap) o.last o.named
      ∙ ap (λ h. returns tt (record (closed_client fid a o.path s.peer s) { heap = h }))
          (erase-set a f s.heap)

  module _ (net : Network Peer) where
    run-master_handle_from_fd :
        (fid : ℕ) (s : Client Peer) (o : LastOpen fid s)
        → master_handle_from_fd (fid_to_fd fid) s ≡ returns o.scbb.master_handle s
    unfolding master_handle_from_fd master_handle_of_meta
    run-master_handle_from_fd fid s o =
        run-bind (opened_at (fid_to_fd fid)) _ o.file s s (run-opened_at fid o.file s o.found)
        ∙ run-bind (read_meta o.file.file_meta) _ o.meta s s
            (run-read_meta o.file.file_meta o.meta s o.here)
        ∙ run-bind (scbb_of o.meta.corresponding_scbb) _ o.scbb s s
            (run-deref (find o.meta.corresponding_scbb s.master_handle_list) o.scbb s o.master)

    run-file_query :
        (fid mode : ℕ) (s : Client Peer) (o : LastOpen fid s) (rest : List Word) (bytes : List ℕ)
        (p : Peer)
        → net.ask o.scbb.master_handle (code mode ∷ num o.meta.remote_file_no ∷ []) [] s.peer
          ≡ (some (record { words = code 0 ∷ rest; bytes = bytes }), p)
        → file_query net mode o.scbb.master_handle o.file s
          ≡ returns (pos 0) (record s { peer = p })
    unfolding pop_int
    run-file_query fid mode s o rest bytes p e =
        let words : List Word = code mode ∷ num o.meta.remote_file_no ∷ [] in
        run-bind (read_meta o.file.file_meta) _ o.meta s s
          (run-read_meta o.file.file_meta o.meta s o.here)
        ∙ run-bind (query net o.scbb.master_handle words []) _
            (record { words = code 0 ∷ rest; bytes = bytes }) s (record s { peer = p })
            (run-query net o.scbb.master_handle words [] s
              (record { words = code 0 ∷ rest; bytes = bytes }) p e)

    -- _close of the last descriptor of a file, which its Master accepts
    pub close_once-Closed :
        (fid : ℕ) (s : Client Peer) (o : LastOpen fid s) (rest : List Word) (bytes : List ℕ)
        (p : Peer)
        → s.thread_started ≡ true
        → net.ask o.scbb.master_handle
            (code Code.close_file ∷ num o.meta.remote_file_no ∷ [])
            []
            s.peer
          ≡ (some (record { words = code 0 ∷ rest; bytes = bytes }), p)
        → close_once net (fid_to_fd fid) s
          ≡ returns (pos 0) (closed_client fid o.file.file_meta o.path p s)
    unfolding close_once close_opened
    close_once-Closed fid s o rest bytes p started e =
        let fd : ℕ = fid_to_fd fid in
        let handle : ℕ = o.scbb.master_handle in
        let s1 : Client Peer = record s { peer = p } in
        let o1 : LastOpen fid s1 = record {
          file = o.file;
          meta = o.meta;
          scbb = o.scbb;
          path = o.path;
          found = o.found;
          here = o.here;
          master = o.master;
          last = o.last;
          named = o.named;
        } in
        let t : Client Peer = closed_client fid o.file.file_meta o.path p s in
        run-then (check_init net) _ tt s s (run-check_init net s started)
        ∙ run-bind (master_handle_from_fd fd) _ handle s s (run-master_handle_from_fd fid s o)
        ∙ run-catch_returns (close_opened net fd handle) _ (pos 0) s t (
            run-bind (opened_at fd) _ o.file s s (run-opened_at fid o.file s o.found)
            ∙ run-bind (fid_at fd) _ fid s s (run-fid_at fid s)
            ∙ run-bind (file_query net Code.close_file handle o.file) _ (pos 0) s s1
                (run-file_query fid Code.close_file s o rest bytes p e)
            ∙ run-then (delete_open_file fid o.file) (pure (pos 0)) tt s1 t
                (run-delete_open_file fid s1 o1))
