-- ===== src/Master/Nodes.antt =====
-- The IOnodes that a Master knows: Master::_add_IOnode, _find_by_uri, _get_next_IOnode,
-- _select_IOnode, _remove_IOnode, _unregister_IOnode and _get_node_info_from_handle. The map
-- `_IOnode_handle` has the same nodes as `_registered_IOnodes`, and is read through it.
pub mod Round
use huron_fs.Prelude.{
  ℕ, zero, suc, ◌-◌, Bool, true, false, Option, none, some, [], ◌∷◌, ◌==◌, ltb, if◌then◌else◌,
  length,
}
use huron_fs.Prelude.Int.{ℤ, pos, negsuc}
use huron_fs.Prelude.Map.{ℕ_key, ℤ_key, path_key, Map, FilePath, find, set, insert, erase, same}
use huron_fs.Master.{M, Set, NodeInfo, runtime_error, returns, throws, undefined}
use huron_fs.Master.Blocks.{next_key}
use huron_fs.Master.Monad.{◌>>=◌, ◌>>◌, pure, gets, modify, deref}
use huron_fs.Master.Numbers.{get_node_id}

-- begin(_registered_IOnodes)
abbrev pub begin : {V : Type 0} → Map ℕ V → Option ℕ
begin [] = none
begin ((k, v) ∷ m) = some k

-- Master::_find_by_uri: whether some node has the address.
unfoldable pub find_by_uri : FilePath → Map ℕ NodeInfo → Bool
find_by_uri uri [] = false
find_by_uri uri ((id, n) ∷ m) =
    let rest = find_by_uri uri m in if same n.uri uri then true else rest

-- node_info::node_info
unfoldable pub new_node : ℕ → FilePath → ℕ → ℕ → NodeInfo
new_node id uri total_memory handle = record {
  handle = handle;
  node_id = id;
  uri = uri;
  stored_files = [];
  available_memory = total_memory;
  total_memory = total_memory;
}

unfoldable pub register_as : ℤ → FilePath → ℕ → ℕ → M ℤ
register_as (negsuc n) uri total_memory handle s = returns (negsuc 0) s
register_as (pos id) uri total_memory handle s =
    if find_by_uri uri s.registered_io_nodes
    then returns (negsuc 0) s
    else returns (pos id) (record s {
      registered_io_nodes = insert id (new_node id uri total_memory handle) s.registered_io_nodes;
    })

-- Master::_add_IOnode; the number is taken before the address is looked up.
unfoldable pub add_io_node : FilePath → ℕ → ℕ → M ℤ
add_io_node uri total_memory handle = do id ← get_node_id; register_as id uri total_memory handle

-- Master::_get_next_IOnode: the node at the iterator, or the first one at the end; the iterator
-- moves on. `none` is the null pointer.
unfoldable pub advance : Option ℕ → M (Option ℕ)
advance none s = returns none s
advance (some id) s =
    returns (some id) (record s { current_io_node = next_key id s.registered_io_nodes })

unfoldable pub wrap : Option ℕ → Map ℕ NodeInfo → Option ℕ
wrap none nodes = begin nodes
wrap (some id) nodes = some id

unfoldable pub get_next_io_node : M (Option ℕ)
get_next_io_node s = advance (wrap s.current_io_node s.registered_io_nodes) s

-- stored_files.insert and stored_files.erase of a node
abbrev pub with_file : ℤ → NodeInfo → NodeInfo
with_file file_no n = record n { stored_files = set file_no tt n.stored_files }

abbrev pub without_file : ℤ → NodeInfo → NodeInfo
without_file file_no n = record n { stored_files = erase file_no n.stored_files }

unfoldable pub update_node : (NodeInfo → NodeInfo) → ℕ → M (Unit {0})
update_node f id s = elim (find id s.registered_io_nodes) [
  | none ↦ undefined
  | some n ↦ returns tt (record s { registered_io_nodes = set id (f n) s.registered_io_nodes })
]

-- The loop of _select_IOnode over the replicas, which starts at the iterator.
unfoldable pub select_replicas : ℕ → ℤ → Option ℕ → Set ℕ → M (Set ℕ)
select_replicas zero file_no replica pool = pure pool
select_replicas (suc n) file_no replica pool = do
  nodes ← gets (λ s. s.registered_io_nodes)
  id ← deref (wrap replica nodes)
  update_node (with_file file_no) id
  select_replicas n file_no (next_key id nodes) (set id tt pool)

unfoldable pub select_with : ℤ → ℕ → M (ℕ × Set ℕ)
select_with file_no replicas = do
  next ← get_next_io_node
  main ← deref next
  update_node (with_file file_no) main
  from ← gets (λ s. s.current_io_node)
  pool ← select_replicas replicas file_no from []
  pure (main, pool)

-- Master::_select_IOnode: the primary and the set of replicas, no more than there are other nodes.
unfoldable pub select_io_node : ℤ → ℕ → M (ℕ × Set ℕ)
select_io_node file_no num_of_nodes s =
    let size : ℕ = length s.registered_io_nodes in
    let replicas : ℕ = if ltb (size - 1) num_of_nodes then size - 1 else num_of_nodes in
    if size == 0 then throws runtime_error s else select_with file_no replicas s

-- Master::_remove_IOnode, at the end of _unregister_IOnode: the iterator is read, and moves on if
-- it stands at the node. Reading it at the end is undefined.
unfoldable pub leave : ℕ → Option ℕ → M (Unit {0})
leave id none s = undefined
leave id (some current) s =
    returns tt (
      if current == id then record s { current_io_node = next_key id s.registered_io_nodes } else s)

unfoldable pub remove_io_node : ℕ → M (Unit {0})
remove_io_node id = do
  s ← gets (λ s. s)
  (if length s.registered_io_nodes == 0 then pure tt else leave id s.current_io_node)
  modify λ t. record t { registered_io_nodes = erase id t.registered_io_nodes }

-- Master::_get_node_info_from_handle
unfoldable pub get_node_info_from_handle : ℕ → Map ℕ NodeInfo → Option ℕ
get_node_info_from_handle handle [] = none
get_node_info_from_handle handle ((id, n) ∷ m) =
    let rest = get_node_info_from_handle handle m in if n.handle == handle then some id else rest
