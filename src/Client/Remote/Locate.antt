-- ===== src/Client/Remote/Locate.antt =====
-- CBB_client::_get_blocks_from_master for a write, where the Master names one IOnode, which is
-- connected, and one block.
use huron_fs.Prelude.{ℕ, ◌+◌, ◌≡◌, refl, ap, ◌∙◌, false, some, List, [], ◌∷◌, if◌then◌else◌}
use huron_fs.Prelude.Int.{ℤ}
use huron_fs.Prelude.Map.{ℕ_key, ℤ_key, FilePath, find, set, insert, find-set_self, set-set}
use huron_fs.Exec.{returns, ◌>>=◌, pure, gets, deref}
use huron_fs.Exec.Laws.{run-bind, run-then, run-deref}
use huron_fs.Master.{Word, num, text, attr}
use huron_fs.Client.{Client, Network, Answer, FileMeta, Scbb}
use huron_fs.Client.Code
use huron_fs.Client.Query.{code, query, pop_int, pop_size, pop_string}
use huron_fs.Client.Query.Laws.{run-query}
use huron_fs.Client.Table.{read_meta, put_meta}
use huron_fs.Client.Table.Run.{run-read_meta}
use huron_fs.Client.Blocks.{
  updated, NodePool, grow_size, scbb_of, master_handle_of_meta, write_update_file_size, node_handle,
  get_io_node_handle, parse_nodes, parse_block_list, parse_blocks_from_master, blocks_query,
  get_blocks_from_master,
}

-- What the Master answers to a write: the size of the file, the IOnode, and the block.
pub record Placed : Type 0 where
  pub file_size : ℕ
  pub node_id : ℤ
  pub uri : FilePath
  pub start : ℕ
  pub block_size : ℕ

abbrev pub block_words : Placed → List Word
block_words b = code 1 ∷ num b.node_id ∷ text b.uri ∷ code 1 ∷ code b.start ∷ code b.block_size ∷ []

abbrev pub write_words : FileMeta → ℕ → ℕ → List Word
write_words f start_point size =
    code Code.write_file
    ∷ num f.remote_file_no
    ∷ attr (grow_size (start_point + size) f).file_stat
    ∷ code start_point
    ∷ code size
    ∷ []

-- The file_meta afterwards
abbrev pub placed_meta : Placed → ℕ → FileMeta → FileMeta
placed_meta b end_point f = record (grow_size b.file_size (grow_size end_point f)) {
  io_node_list_cache = set b.node_id tt f.io_node_list_cache;
}

module _ {Peer : Type 0} where
  run-scbb_of :
      (k : ℕ) (scbb : Scbb) (s : Client Peer)
      → find k s.master_handle_list ≡ some scbb
      → scbb_of k s ≡ returns scbb s
  run-scbb_of k scbb s h =
      run-bind (gets (λ t. find k t.master_handle_list)) deref (find k s.master_handle_list) s s
        refl
      ∙ run-deref (find k s.master_handle_list) scbb s h

  -- A status that is put where one has just been put
  abbrev pub at_meta : ℕ → FileMeta → Client Peer → Client Peer
  at_meta a f s = record s { heap = set a f s.heap }

  run-update_size :
      (a current size : ℕ) (f : FileMeta) (s : Client Peer)
      → write_update_file_size a current size (at_meta a f s)
        ≡ returns tt (at_meta a (grow_size (current + size) f) s)
  unfolding write_update_file_size
  run-update_size a current size f s =
      run-bind (read_meta a) _ f (at_meta a f s) (at_meta a f s)
        (run-read_meta a f (at_meta a f s) (find-set_self a f s.heap))
      ∙ ap (λ h. returns tt (record s { heap = h }))
          (set-set a (grow_size (current + size) f) f s.heap)

  module _ (net : Network Peer) (b : Placed) (a handle : ℕ) (scbb : Scbb) where
    run-parse_nodes :
        (f : FileMeta) (rest : List Word) (s : Client Peer)
        → find f.corresponding_scbb s.master_handle_list ≡ some scbb
        → find b.node_id scbb.io_node_list ≡ some (some handle)
        → parse_nodes net 1 (num b.node_id ∷ text b.uri ∷ rest) a [] (at_meta a f s)
          ≡ returns
              (((b.node_id, some handle) ∷ []), rest)
              (at_meta a
                (record f { io_node_list_cache = set b.node_id tt f.io_node_list_cache })
                s)
    unfolding parse_nodes pop_int pop_string get_io_node_handle node_handle insert find set
    run-parse_nodes f rest s master connected =
        let t : Client Peer = at_meta a f s in
        let g : FileMeta = record f {
          io_node_list_cache = set b.node_id tt f.io_node_list_cache;
        } in
        run-bind (read_meta a) _ f t t (run-read_meta a f t (find-set_self a f s.heap))
        ∙ run-bind (get_io_node_handle net f.corresponding_scbb b.node_id b.uri) _ (some handle) t t
            (run-bind (scbb_of f.corresponding_scbb) _ scbb t t
                (run-scbb_of f.corresponding_scbb scbb t master)
              ∙ ap (λ o. node_handle net f.corresponding_scbb scbb b.node_id b.uri o t) connected)
        ∙ ap (λ h. returns (((b.node_id, some handle) ∷ []), rest) (record s { heap = h }))
            (set-set a g f s.heap)

    run-parse_block_list :
        (f : FileMeta) (s : Client Peer)
        → s.using_io_node_cache ≡ false
        → parse_block_list net 1 (code b.start ∷ code b.block_size ∷ []) a [] (at_meta a f s)
          ≡ returns ((b.start, b.block_size) ∷ []) (at_meta a f s)
    unfolding parse_block_list pop_size insert find set
    run-parse_block_list f s cache =
        let t : Client Peer = at_meta a f s in
        run-bind (read_meta a) _ f t t (run-read_meta a f t (find-set_self a f s.heap))
        ∙ ap
            (λ c. returns ((b.start, b.block_size) ∷ []) (record s {
              heap =
                  set a
                    (if c
                      then (record f { block_list = insert b.start b.block_size f.block_list })
                      else f)
                    (set a f s.heap);
            }))
            cache
        ∙ ap (λ h. returns ((b.start, b.block_size) ∷ []) (record s { heap = h }))
            (set-set a f f s.heap)

    -- The blocks are the one that the Master names, the pool is its IOnode.
    pub run-get_blocks_from_master :
        (f : FileMeta) (start_point size : ℕ) (bytes : List ℕ) (p : Peer) (s : Client Peer)
        → find f.corresponding_scbb s.master_handle_list ≡ some scbb
        → find b.node_id scbb.io_node_list ≡ some (some handle)
        → s.using_io_node_cache ≡ false
        → net.ask scbb.master_handle (write_words f start_point size) [] s.peer
          ≡ (some (record { words = code 0 ∷ code b.file_size ∷ block_words b; bytes = bytes }), p)
        → get_blocks_from_master net a start_point size [] [] Code.write_file (at_meta a f s)
          ≡ returns
              (updated, (b.start, b.block_size) ∷ [], (b.node_id, some handle) ∷ [])
              (record (at_meta a (placed_meta b (start_point + size) f) s) { peer = p })
    unfolding get_blocks_from_master blocks_query pop_int pop_size parse_blocks_from_master
        master_handle_of_meta
    run-get_blocks_from_master f start_point size bytes p s master connected cache e =
        let t : Client Peer = at_meta a f s in
        let f2 : FileMeta = grow_size (start_point + size) f in
        let f3 : FileMeta = grow_size b.file_size f2 in
        let f4 : FileMeta = placed_meta b (start_point + size) f in
        let s' : Client Peer = record s { peer = p } in
        let words : List Word = write_words f start_point size in
        let got : Answer = record {
          words = code 0 ∷ code b.file_size ∷ block_words b;
          bytes = bytes;
        } in
        let rest : List Word = code 1 ∷ code b.start ∷ code b.block_size ∷ [] in
        let pool : NodePool = (b.node_id, some handle) ∷ [] in
        run-bind (read_meta a) _ f t t (run-read_meta a f t (find-set_self a f s.heap))
        ∙ run-bind (master_handle_of_meta f) _ scbb.master_handle t t (
            run-bind (scbb_of f.corresponding_scbb) _ scbb t t
              (run-scbb_of f.corresponding_scbb scbb t master))
        ∙ run-bind (blocks_query net Code.write_file a start_point size) _ words t (at_meta a f2 s)
            (run-then (write_update_file_size a start_point size) _ tt t (at_meta a f2 s)
                (run-update_size a start_point size f s)
              ∙ run-bind (read_meta a) _ f2 (at_meta a f2 s) (at_meta a f2 s)
                  (run-read_meta a f2 (at_meta a f2 s) (find-set_self a f2 s.heap)))
        ∙ run-bind (query net scbb.master_handle words []) _ got (at_meta a f2 s) (at_meta a f2 s')
            (run-query net scbb.master_handle words [] (at_meta a f2 s) got p e)
        ∙ run-bind (read_meta a) _ f2 (at_meta a f2 s') (at_meta a f2 s')
            (run-read_meta a f2 (at_meta a f2 s') (find-set_self a f2 s.heap))
        ∙ run-then (put_meta a f3)
            (parse_blocks_from_master net (block_words b) a [] [] >>= λ found.
              pure (updated, found.0, found.1))
            tt (at_meta a f2 s') (at_meta a f3 s')
            (ap (λ h. returns tt (record s' { heap = h })) (set-set a f3 f2 s.heap))
        ∙ run-bind (parse_blocks_from_master net (block_words b) a [] [])
            (λ found. pure (updated, found.0, found.1)) ((b.start, b.block_size) ∷ [], pool)
            (at_meta a f3 s') (at_meta a f4 s')
            (run-bind (parse_nodes net 1 (num b.node_id ∷ text b.uri ∷ rest) a []) _ (pool, rest)
                (at_meta a f3 s') (at_meta a f4 s') (run-parse_nodes f3 rest s' master connected)
              ∙ run-bind (parse_block_list net 1 (code b.start ∷ code b.block_size ∷ []) a []) _
                  ((b.start, b.block_size) ∷ []) (at_meta a f4 s') (at_meta a f4 s')
                  (run-parse_block_list f4 s' cache))
