-- ===== src/Master/Request.antt =====
-- Master::_parse_request: the request code chooses the handler. A request is its code with the
-- arguments that the handler pops.
use huron_fs.Prelude.{ℕ}
use huron_fs.Prelude.Int.{ℤ}
use huron_fs.Prelude.Map.{FilePath}
use huron_fs.Master.{M, Stat, success}
use huron_fs.Master.Monad.{◌>>=◌, pure}
use huron_fs.Master.Handlers.{
  parse_meta_update, parse_open_file, parse_read_file, parse_write_file, parse_flush_file,
  parse_close_file, parse_register_io_node, parse_new_client,
}
use huron_fs.Master.Entries.{
  parse_attr, parse_access, parse_readdir, parse_unlink, parse_rmdir, parse_mkdir, parse_rename,
  parse_rename_migrating, parse_truncate_file,
}
use huron_fs.Master.Failure.{parse_node_failure, parse_io_node_failure}

pub data Request : Type 0 where
  register : FilePath → ℕ → Request
  new_client close_client node_failure : Request
  open_file : FilePath → ℕ → ℕ → Request
  read_file : ℤ → ℕ → ℕ → Request
  write_file : ℤ → Stat → ℕ → ℕ → Request
  flush_file close_file : ℤ → Request
  get_attr read_dir rm_dir unlink : FilePath → Request
  update_meta : ℤ → Stat → Request
  access mkdir truncate : FilePath → ℕ → Request
  rename : FilePath → FilePath → ℤ → Request
  rename_migrating : FilePath → ℤ → Request
  io_node_failure : ℕ → Request

-- The handler that a code is given to.
unfoldable pub handle_request : ℕ → Request → M ℤ
handle_request client (register uri total_memory) = parse_register_io_node client uri total_memory
handle_request client new_client = parse_new_client client
handle_request client (open_file path flag mode) = parse_open_file client path flag mode
handle_request client (read_file file_no start size) = parse_read_file client file_no start size
handle_request client (write_file file_no new start size) =
    parse_write_file client file_no new start size
handle_request client (flush_file file_no) = parse_flush_file client file_no
handle_request client (close_file file_no) = parse_close_file client file_no
handle_request client (get_attr path) = parse_attr client path
handle_request client (update_meta file_no new) = parse_meta_update file_no new
handle_request client (read_dir path) = parse_readdir client path
handle_request client (rm_dir path) = parse_rmdir client path
handle_request client (unlink path) = parse_unlink client path
handle_request client (access path mode) = parse_access client path mode
handle_request client (rename old_path new_path new_master) =
    parse_rename client old_path new_path new_master
handle_request client (rename_migrating path old_master) =
    parse_rename_migrating client path old_master
handle_request client (mkdir path mode) = parse_mkdir client path mode
handle_request client (truncate path size) = parse_truncate_file client path size
-- Master::_parse_close_client closes the connection.
handle_request client close_client = pure success
handle_request client node_failure = parse_node_failure client
handle_request client (io_node_failure id) = parse_io_node_failure id

-- The handler's result is not used.
unfoldable pub parse_request : ℕ → Request → M ℤ
parse_request client request = do _ ← handle_request client request; pure success
