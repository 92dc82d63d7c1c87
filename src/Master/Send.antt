-- ===== src/Master/Send.antt =====
-- The messages of src/Master/src/Master.cpp to IOnodes, one function for each sender. Each body is
-- the sequence of pushes; the first word is the request code of CBB_const.h.
pub mod Laws
use huron_fs.Prelude.{
  ℕ, ◌-◌, ◌==◌, Bool, false, none, some, List, [], ◌∷◌, ◌++◌, length, if◌then◌else◌,
}
use huron_fs.Prelude.Int.{ℤ, pos}
use huron_fs.Prelude.Map.{ℕ_key, path_key, Map, FilePath, find}
use huron_fs.Master.{
  M, Set, to_client, to_node, Word, num, text, OpenFileInfo, NodeInfo, MasterFileStat,
}
use huron_fs.Master.Blocks.{BlockList}
use huron_fs.Master.Code
use huron_fs.Master.Monad.{◌>>=◌, ◌>>◌, pure, gets, deref, for_each, send}

abbrev pub int : ℕ → Word
int n = num (pos n)

-- A pointer to a node is read: one to a node that was removed is not valid.
abbrev pub live : ℕ → M (Unit {0})
live id = do n ← gets (λ s. find id s.registered_io_nodes); _ ← deref n; pure tt

-- output->set_handle(node->handle); the pushes; output_task_enqueue(output)
abbrev pub to_io_node : ℕ → List Word → M (Unit {0})
to_io_node id body = do live id; send (record { target = to_node id; body = body })

-- output->push_back(...); output_task_enqueue(output) on a response task
abbrev pub reply : ℕ → List Word → M (Unit {0})
reply client body = send (record { target = to_client client; body = body })

unfoldable pub keys : {V : Type 0} → Map ℕ V → List ℕ
keys [] = []
keys ((k, v) ∷ m) = k ∷ keys m

-- A count and the entries, as all lists are sent.
unfoldable pub block_words : BlockList → List Word
block_words [] = []
block_words ((p, s) ∷ m) = int p ∷ int s ∷ block_words m

unfoldable pub counted_blocks : BlockList → List Word
counted_blocks m = int (length m) ∷ block_words m

-- The id and the address of each node of a set.
unfoldable pub node_words : Map ℕ NodeInfo → Set ℕ → List Word
node_words nodes [] = []
node_words nodes ((id, _) ∷ s) =
    let rest : List Word = node_words nodes s in
    elim (find id nodes) [ none ↦ rest | some n ↦ int id ∷ text n.uri ∷ rest ]

-- Master::_send_block_info
unfoldable pub send_block_info : ℕ → ℕ → Map ℕ NodeInfo → Set ℕ → BlockList → M (Unit {0})
send_block_info client file_size nodes pool blocks =
    reply client
      (int 0 ∷ int file_size ∷ int (length pool) ∷ (node_words nodes pool ++ counted_blocks blocks))

-- Master::_send_replica_nodes_info; MAIN_REPLICA is 0 and SUB_REPLICA is 1.
unfoldable pub replica_words : Map ℕ NodeInfo → Set ℕ → List Word
replica_words nodes pool = int 0 ∷ int (length pool) ∷ node_words nodes pool

-- Whether the primary of a file is this node.
unfoldable pub is_primary : OpenFileInfo → ℕ → Bool
is_primary f id = elim f.primary_replica_node [ none ↦ false | some p ↦ p == id ]

-- open_file_info::get_stat and get_path read the entry that the file was opened through.
unfoldable pub stat_of : OpenFileInfo → M MasterFileStat
stat_of f = do st ← gets (λ s. find f.file_status s.file_stat_pool); deref st

-- Master::_send_open_request_to_IOnodes
unfoldable pub send_open_request_to_io_nodes : OpenFileInfo → ℕ → M (Unit {0})
send_open_request_to_io_nodes f id = do
  st ← stat_of f
  nodes ← gets (λ s. s.registered_io_nodes)
  (if is_primary f id then for_each (keys f.io_nodes_set) live else pure tt)
  to_io_node id (
      int Code.open_file
      ∷ num f.file_no
      ∷ int f.flag
      ∷ int st.exist_flag
      ∷ text st.full_path
      ∷ (counted_blocks f.block_list
          ++ (if is_primary f id then replica_words nodes f.io_nodes_set else int 1 ∷ int 0 ∷ [])))

-- Master::_send_rename_request
unfoldable pub send_rename_request : ℤ → FilePath → ℕ → M (Unit {0})
send_rename_request file_no path id = to_io_node id (int Code.rename ∷ num file_no ∷ text path ∷ [])

-- Master::_send_truncate_request
unfoldable pub send_truncate_request : ℤ → ℕ → ℕ → ℕ → M (Unit {0})
send_truncate_request file_no block_start_point size id =
    to_io_node id (
      int Code.truncate ∷ num file_no ∷ int block_start_point ∷ int (size - block_start_point) ∷ [])

-- Master::_send_remove_request
unfoldable pub send_remove_request : ℤ → ℕ → M (Unit {0})
send_remove_request file_no id = to_io_node id (int Code.unlink ∷ num file_no ∷ [])

-- Master::_resend_replica_nodes_info_to_new_node
unfoldable pub resend_replica_nodes_info_to_new_node : OpenFileInfo → ℕ → ℕ → M (Unit {0})
resend_replica_nodes_info_to_new_node f primary new_node = do
  nodes ← gets (λ s. s.registered_io_nodes)
  for_each (keys f.io_nodes_set) live
  to_io_node primary (
      int Code.promoted_to_primary_replica
      ∷ num f.file_no
      ∷ int new_node
      ∷ replica_words nodes f.io_nodes_set)

-- Master::_replace_replica_nodes_info
unfoldable pub replace_replica_nodes_info : OpenFileInfo → NodeInfo → ℕ → M (Unit {0})
replace_replica_nodes_info f new_node replaced = do
  primary ← deref f.primary_replica_node
  to_io_node primary (
      int Code.replace_replica
      ∷ num f.file_no
      ∷ int replaced
      ∷ int new_node.node_id
      ∷ text new_node.uri
      ∷ [])

-- Master::_send_remove_IOnode_request, to every node but the one removed.
unfoldable pub send_remove_to : ℕ → ℕ → M (Unit {0})
send_remove_to removed id =
    if id == removed then pure tt else to_io_node id (int Code.remove_io_node ∷ int removed ∷ [])

unfoldable pub send_remove_io_node_request : ℕ → M (Unit {0})
send_remove_io_node_request removed = do
  ids ← gets (λ s. keys s.registered_io_nodes)
  for_each ids (send_remove_to removed)
