-- ===== src/Master/Failure.antt =====
-- The failure of an IOnode: Master::_parse_node_failure, _parse_IOnode_failure,
-- _IOnode_failure_handler, _recreate_replicas, _allocate_replace_IOnode, _unregister_IOnode and
-- _remove_IOnode_buffered_file. A set of nodes is in the order of their ids.
pub mod Lost
use huron_fs.Prelude.{
  ℕ, zero, suc, Bool, true, false, Option, none, some, List, [], ◌∷◌, ◌==◌, ◌&&◌, ltb,
  if◌then◌else◌, length,
}
use huron_fs.Prelude.Int.{ℤ}
use huron_fs.Prelude.Map.{ℕ_key, ℤ_key, find, set, erase}
use huron_fs.Master.{M, Set, NodeInfo, OpenFileInfo, returns, undefined, success}
use huron_fs.Master.Monad.{
  ◌>>=◌, ◌>>◌, pure, fault, gets, deref, at, for_each, read_file, write_file,
}
use huron_fs.Master.Nodes.{begin, get_next_io_node, remove_io_node, get_node_info_from_handle}
use huron_fs.Master.Files.{num_of_replica}
use huron_fs.Master.Send.{
  send_open_request_to_io_nodes, resend_replica_nodes_info_to_new_node, replace_replica_nodes_info,
  send_remove_io_node_request,
}

unfoldable pub file_numbers : Set ℤ → List ℤ
file_numbers [] = []
file_numbers ((n, _) ∷ m) = n ∷ file_numbers m

unfoldable pub member : ℕ → Set ℕ → Bool
member id pool = elim (find id pool) [ none ↦ false | some _ ↦ true ]

-- The loop of _allocate_replace_IOnode takes the next node until it is not the old one or not in
-- the set. One that never ends is undefined: it ends at the second node at the latest if two are
-- registered.
unfoldable pub next_but : ℕ → Set ℕ → ℕ → M (Option ℕ)
next_but zero pool old = fault
next_but (suc fuel) pool old = do
  next ← get_next_io_node
  elim next [
    | none ↦ pure none
    | some id ↦ if (id == old) && member id pool then next_but fuel pool old else pure (some id)
  ]

unfoldable pub allocate_replace_io_node : Set ℕ → ℕ → M (Option ℕ)
allocate_replace_io_node pool old =
    if ltb (length pool) num_of_replica then pure none else next_but 3 pool old

-- The first replica becomes the primary; reading the first of an empty set is undefined.
unfoldable pub promote : OpenFileInfo → M OpenFileInfo
promote f = do
  first ← deref (begin f.io_nodes_set)
  pure (record f { primary_replica_node = some first; io_nodes_set = erase first f.io_nodes_set })

abbrev pub is_primary_of : OpenFileInfo → ℕ → Bool
is_primary_of f id = elim f.primary_replica_node [ none ↦ false | some p ↦ p == id ]

abbrev pub without_node : OpenFileInfo → ℕ → OpenFileInfo
without_node f id = record f { io_nodes_set = erase id f.io_nodes_set }

abbrev pub with_node : OpenFileInfo → ℕ → OpenFileInfo
with_node f id = record f { io_nodes_set = set id tt f.io_nodes_set }

-- A file that loses a node and gets the node `new`.
unfoldable pub replace_node : ℕ → OpenFileInfo → ℕ → ℕ → M (Unit {0})
replace_node a f failed new =
    if is_primary_of f failed
    then (do
      promoted ← promote f
      write_file a (with_node promoted new)
      primary ← deref promoted.primary_replica_node
      resend_replica_nodes_info_to_new_node (with_node promoted new) primary new
      send_open_request_to_io_nodes (with_node promoted new) new)
    else (do
      write_file a (with_node f new)
      node ← gets (λ s. find new s.registered_io_nodes)
      n ← deref node
      replace_replica_nodes_info (with_node f new) n failed
      send_open_request_to_io_nodes (with_node f new) new)

-- A file that loses a node and gets no new one.
unfoldable pub drop_node : ℕ → OpenFileInfo → ℕ → M (Unit {0})
drop_node a f failed =
    if is_primary_of f failed
    then (if length f.io_nodes_set == 0
        then write_file a f
        else (do promoted ← promote f; write_file a promoted))
    else write_file a f

-- The body of the loop of _recreate_replicas.
unfoldable pub recreate_replica : ℕ → ℤ → M (Unit {0})
recreate_replica failed file_no = do
  entry ← gets (λ s. find file_no s.buffered_files)
  a ← at entry
  f ← read_file a
  new ← allocate_replace_io_node f.io_nodes_set failed
  elim new [
    | none ↦ drop_node a (without_node f failed) failed
    | some id ↦ replace_node a (without_node f failed) failed id
  ]

-- The body of the loop of _remove_IOnode_buffered_file.
unfoldable pub remove_from_file : ℕ → ℤ → M (Unit {0})
remove_from_file failed file_no = do
  entry ← gets (λ s. find file_no s.buffered_files)
  a ← at entry
  f ← read_file a
  (if is_primary_of f failed
      then (do
        first ← deref (begin (without_node f failed).io_nodes_set)
        write_file a (record (without_node f failed) { primary_replica_node = some first }))
      else write_file a (without_node f failed))

unfoldable pub remove_io_node_buffered_file : ℕ → M (Unit {0})
remove_io_node_buffered_file failed = do
  node ← gets (λ s. find failed s.registered_io_nodes)
  n ← deref node
  for_each (file_numbers n.stored_files) (remove_from_file failed)

-- Master::_recreate_replicas
unfoldable pub recreate_replicas : ℕ → M (Unit {0})
recreate_replicas failed = do
  nodes ← gets (λ s. s.registered_io_nodes)
  node ← gets (λ s. find failed s.registered_io_nodes)
  n ← deref node
  (if length nodes == 1
      then remove_io_node_buffered_file failed
      else for_each (file_numbers n.stored_files) (recreate_replica failed))

-- Master::_IOnode_failure_handler; _unregister_IOnode ends in _remove_IOnode.
unfoldable pub io_node_failure_handler : ℕ → M ℤ
io_node_failure_handler failed = do
  send_remove_io_node_request failed
  recreate_replicas failed
  remove_io_node failed
  pure success

-- Master::_parse_node_failure: a connection that is no IOnode's is closed.
unfoldable pub parse_node_failure : ℕ → M ℤ
parse_node_failure client = do
  node ← gets (λ s. get_node_info_from_handle client s.registered_io_nodes)
  elim node [ none ↦ pure success | some id ↦ io_node_failure_handler id ]

-- Master::_parse_IOnode_failure
unfoldable pub parse_io_node_failure : ℕ → M ℤ
parse_io_node_failure id = do
  node ← gets (λ s. find id s.registered_io_nodes)
  elim node [ none ↦ pure success | some _ ↦ do _ ← io_node_failure_handler id; pure success ]
