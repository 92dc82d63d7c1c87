-- ===== src/Master/Files/Place.antt =====
-- _create_new_open_file_info chooses the node of a file and sends it the file.
use huron_fs.Prelude.{
  ℕ, ◌-◌, ◌≡◌, refl, ap, ◌∙◌, true, false, some, [], ◌∷◌, ◌++◌, arith, ◌==◌, ltb, if◌then◌else◌,
  length,
}
use huron_fs.Prelude.Int.{pos}
use huron_fs.Prelude.Map.{ℕ_key, ℤ_key, path_key, Map, FilePath, find, set, find-set_self}
use huron_fs.Block.{block_bytes, min_of}
use huron_fs.Master.{
  Master, MasterFileStat, OpenFileInfo, NodeInfo, Message, to_node, num, text, returns,
}
use huron_fs.Master.Code
use huron_fs.Master.Blocks.{next_key, create_block_list}
use huron_fs.Master.Blocks.Create.{empty_list}
use huron_fs.Master.Monad.{deref, read_file, for_each}
use huron_fs.Master.Monad.Laws.{run-bind, run-then, run-deref, run-read_file}
use huron_fs.Master.Nodes.{
  wrap, advance, get_next_io_node, update_node, with_file, select_with, select_replicas,
  select_io_node,
}
use huron_fs.Master.Send.{
  int, stat_of, is_primary, keys, counted_blocks, block_words, replica_words, node_words,
  send_open_request_to_io_nodes,
}
use huron_fs.Master.Send.Laws.{run-to_io_node, run-stat_of}
use huron_fs.Master.Files.Open.{unplaced}
use huron_fs.Master.Files.{new_open_file_info, num_of_replica, place_file}

no_others : (k : ℕ) → (if ltb k 0 then k else 0) ≡ 0
no_others k = ground arith

self : (id : ℕ) → (id == id) ≡ true
self id = ground arith

no_replica : (size : ℕ) → min_of num_of_replica size ≡ 0
no_replica size = ground arith

-- The node at the iterator gets the file, and the iterator moves on.
abbrev pub chosen : ℕ → ℕ → NodeInfo → Master → Master
chosen n id nd s = record s {
  current_io_node = next_key id s.registered_io_nodes;
  registered_io_nodes = set id (with_file (pos n) nd) s.registered_io_nodes;
}

nonempty :
    (id : ℕ) (nd : NodeInfo) (nodes : Map ℕ NodeInfo)
    → find id nodes ≡ some nd
    → (length nodes == 0) ≡ false
unfolding find
nonempty id nd [] e = cc
nonempty id nd (x ∷ nodes) e = ground arith

run-select_with :
    (s : Master) (n id : ℕ) (nd : NodeInfo)
    → wrap s.current_io_node s.registered_io_nodes ≡ some id
    → find id s.registered_io_nodes ≡ some nd
    → select_with (pos n) 0 s ≡ returns (id, []) (chosen n id nd s)
unfolding select_with get_next_io_node advance update_node select_replicas
run-select_with s n id nd w e =
    let s₁ : Master = record s { current_io_node = next_key id s.registered_io_nodes } in
    run-bind get_next_io_node _ (some id) s s₁ (rw w refl)
    ∙ run-then (update_node (with_file (pos n)) id) _ tt s₁ (chosen n id nd s)
        (rw (update_node, e) refl)

run-select_io_node :
    (s : Master) (n id : ℕ) (nd : NodeInfo)
    → wrap s.current_io_node s.registered_io_nodes ≡ some id
    → find id s.registered_io_nodes ≡ some nd
    → select_io_node (pos n) 0 s ≡ returns (id, []) (chosen n id nd s)
unfolding select_io_node
run-select_io_node s n id nd w e =
    rw (select_io_node, nonempty id nd s.registered_io_nodes e)
      (ap (λ k. select_with (pos n) k s) (no_others (length s.registered_io_nodes - 1))
        ∙ run-select_with s n id nd w e)

-- The file as it is once it has its node and its first block.
abbrev pub placed : ℕ → ℕ → ℕ → FilePath → OpenFileInfo
placed n id flag path = record (unplaced n flag path) {
  primary_replica_node = some id;
  block_list = (0, 0) ∷ [];
}

-- OPEN_FILE with the flag, whether the file exists, its path, its empty block and no replicas
abbrev pub open_request : ℕ → ℕ → ℕ → ℕ → FilePath → Message
open_request n id flag exist_flag path = record {
  target = to_node id;
  body =
      int Code.open_file
      ∷ num (pos n)
      ∷ int flag
      ∷ int exist_flag
      ∷ text path
      ∷ int 1
      ∷ int 0
      ∷ int 0
      ∷ int 0
      ∷ int 0
      ∷ [];
}

run-send_open_request_to_io_nodes :
    (s : Master) (n id flag : ℕ) (path : FilePath) (st : MasterFileStat) (nd : NodeInfo)
    → find path s.file_stat_pool ≡ some st
    → find id s.registered_io_nodes ≡ some nd
    → send_open_request_to_io_nodes (placed n id flag path) id s
      ≡ returns tt
          (record s { output = s.output ++ open_request n id flag st.exist_flag st.full_path ∷ [] })
unfolding send_open_request_to_io_nodes is_primary keys for_each new_open_file_info counted_blocks
    block_words replica_words node_words
run-send_open_request_to_io_nodes s n id flag path st nd es en =
    run-bind (stat_of (placed n id flag path)) _ st s s
      (run-stat_of s (placed n id flag path) st es)
    ∙ rw (self id) (run-to_io_node s id _ nd en)

-- A new file of size 0 is placed on the node at the iterator.
abbrev pub after_place : ℕ → ℕ → ℕ → ℕ → FilePath → MasterFileStat → NodeInfo → Master → Master
after_place a n id flag path st nd s = record (chosen n id nd s) {
  heap = set a (placed n id flag path) s.heap;
  output = s.output ++ open_request n id flag st.exist_flag st.full_path ∷ [];
}

pub run-place_file :
    (s : Master) (a n id flag : ℕ) (path : FilePath) (st : MasterFileStat) (nd : NodeInfo)
    → find a s.heap ≡ some (unplaced n flag path)
    → find path s.file_stat_pool ≡ some st
    → st.status.st_size ≡ 0
    → wrap s.current_io_node s.registered_io_nodes ≡ some id
    → find id s.registered_io_nodes ≡ some nd
    → place_file a (pos n) s ≡ returns tt (after_place a n id flag path st nd s)
unfolding place_file new_open_file_info keys for_each
run-place_file s a n id flag path st nd eh es ez w en =
    let f : OpenFileInfo = unplaced n flag path in
    let c : Master = chosen n id nd s in
    let p : Master = record c { heap = set a (placed n id flag path) s.heap } in
    run-bind (select_io_node (pos n) (min_of num_of_replica (length s.registered_io_nodes))) _
      (id, []) s c
      (ap (λ k. select_io_node (pos n) k s) (no_replica (length s.registered_io_nodes))
        ∙ run-select_io_node s n id nd w en)
    ∙ run-bind (read_file a) _ f c c (run-read_file c a f eh)
    ∙ run-bind (stat_of f) _ st c c (run-stat_of c f st es)
    ∙ run-bind (deref (create_block_list st.status.st_size block_bytes [])) _ ((0, 0) ∷ []) c c (
        run-deref (create_block_list st.status.st_size block_bytes []) ((0, 0) ∷ []) c
          (rw ez empty_list))
    ∙ run-bind (read_file a) _ (placed n id flag path) p p
        (run-read_file p a (placed n id flag path) (find-set_self a (placed n id flag path) s.heap))
    ∙ run-then (send_open_request_to_io_nodes (placed n id flag path) id) _ tt p
        (after_place a n id flag path st nd s)
        (run-send_open_request_to_io_nodes p n id flag path st (with_file (pos n) nd) es
          (find-set_self id (with_file (pos n) nd) s.registered_io_nodes))
