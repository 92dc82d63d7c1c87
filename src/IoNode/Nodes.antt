-- ===== src/IoNode/Nodes.antt =====
-- The handlers about other nodes of src/IOnode/src/IOnode.cpp: IOnode::_promoted_to_primary,
-- _replace_replica, _remove_IOnode, _register_new_IOnode and _node_failure.
use huron_fs.Prelude.{ℕ, ◌==◌, Option, none, some, List, [], ◌∷◌, if◌then◌else◌}
use huron_fs.Prelude.Int.{ℤ}
use huron_fs.Prelude.Map.{ℤ_key, Map, FilePath, same, find, insert, erase}
use huron_fs.Exec.{Exception, returns, throws, ◌>>=◌, ◌>>◌, pure, gets, modify, catch, at}
use huron_fs.IoNode.{System, M, SyncTask}
use huron_fs.IoNode.Access.{file_at, put_file, reply, success, failure}
use huron_fs.IoNode.Data.{add_sync_task}
use huron_fs.IoNode.Files.{get_io_node_info, get_replica_node_info}

-- The entry of a handle
unfoldable pub node_of_handle : ℕ → Map ℤ ℕ → Option ℤ
node_of_handle handle [] = none
node_of_handle handle ((n, h) ∷ m) =
    let rest : Option ℤ = node_of_handle handle m in if h == handle then some n else rest

module _ {Disk : Type 0} where
  module _ (os : System Disk) where
    -- The try block of IOnode::_promoted_to_primary
    unfoldable pub promote : ℤ → ℤ → List (ℤ × FilePath) → M Disk ℤ
    promote file_no new_node_id nodes = do
      _ ← file_at file_no
      my_node_id ← gets (λ s. s.my_node_id)
      (if same my_node_id new_node_id then pure success else do
        get_replica_node_info os file_no nodes
        handle ← gets (λ s. find new_node_id s.handle_pool)
        _ ← at handle
        add_sync_task (SyncTask.sync_init file_no new_node_id)
        pure success)

    -- catch (std::runtime_error&) and catch (std::out_of_range&)
    abbrev pub failed : Exception → M Disk ℤ
    failed Exception.bad_alloc s = throws Exception.bad_alloc s
    failed e s = returns failure s

    -- IOnode::_promoted_to_primary
    unfoldable pub promoted_to_primary : ℤ → ℤ → List (ℤ × FilePath) → M Disk ℤ
    promoted_to_primary file_no new_node_id nodes = catch (promote file_no new_node_id nodes) failed

    -- The try block of IOnode::_replace_replica
    unfoldable pub replace : ℤ → ℤ → ℤ × FilePath → M Disk ℤ
    replace file_no old_node_id new_node = do
      f ← file_at file_no
      put_file file_no (record f { io_node_pool = erase old_node_id f.io_node_pool })
      get_io_node_info os file_no new_node
      pure success

    -- Only a std::runtime_error is caught.
    abbrev pub on_runtime_error : Exception → M Disk ℤ
    on_runtime_error Exception.runtime_error s = returns failure s
    on_runtime_error e s = throws e s

    -- IOnode::_replace_replica
    unfoldable pub replace_replica : ℤ → ℤ → ℤ × FilePath → M Disk ℤ
    replace_replica file_no old_node_id new_node =
        catch (replace file_no old_node_id new_node) on_runtime_error

  -- IOnode::_remove_IOnode
  unfoldable pub remove_io_node : ℤ → M Disk (Unit {0})
  remove_io_node node = modify λ s. record s { handle_pool = erase node s.handle_pool }

  -- IOnode::_register_new_IOnode; the request comes over the handle of the new node.
  unfoldable pub register_new_io_node : ℕ → ℤ → M Disk (Unit {0})
  register_new_io_node handle node = do
    modify λ s. record s { handle_pool = insert node handle s.handle_pool }
    reply handle success

  -- IOnode::_node_failure, where the handle is not the Master's
  unfoldable pub node_failure : ℕ → M Disk (Unit {0})
  node_failure handle = do
    node ← gets (λ s. node_of_handle handle s.handle_pool)
    (elim node [ none ↦ pure tt | some n ↦ remove_io_node n ])
