-- ===== src/IoNode/Request.antt =====
-- IOnode::_parse_request of src/IOnode/src/IOnode.cpp: the request code chooses the handler. A
-- request is its code with the arguments that the handler pops. _register_new_client answers SUCCESS,
-- _close_client closes the connection, and what _parse_request returns is SUCCESS.
use huron_fs.Prelude.{ℕ, List}
use huron_fs.Prelude.Int.{ℤ}
use huron_fs.Prelude.Map.{FilePath}
use huron_fs.Exec.{◌>>=◌, pure}
use huron_fs.IoNode.{System, M}
use huron_fs.IoNode.Access.{reply, success}
use huron_fs.IoNode.Data
use huron_fs.IoNode.Files
use huron_fs.IoNode.Nodes

pub data Request : Type 0 where
  new_client close_client node_failed heart_beat unrecognized : Request
  read_file : ℤ → ℕ → ℕ → ℕ → Request
  write_file : ℤ → ℕ → ℕ → ℕ → List ℕ → Request
  open_file : ℤ → ℕ → FilePath → List (ℕ × ℕ) → List (ℤ × FilePath) → Request
  append_block : ℤ → List (ℕ × ℕ) → Request
  rename : ℤ → FilePath → Request
  flush_file close_file unlink : ℤ → Request
  truncate : ℤ → ℕ → ℕ → Request
  data_sync : ℤ → ℕ → ℕ → ℕ → List ℕ → Request
  new_io_node remove_io_node : ℤ → Request
  promoted_to_primary_replica : ℤ → ℤ → List (ℤ × FilePath) → Request
  replace_replica : ℤ → ℤ → ℤ × FilePath → Request

module _ {Disk : Type 0} where
  abbrev pub ignore : {A : Type 0} → M Disk A → M Disk (Unit {0})
  ignore m = do _ ← m; pure tt

  -- IOnode::_parse_request, on a request that came over `handle`
  unfoldable pub parse_request : System Disk → ℕ → Request → M Disk (Unit {0})
  parse_request os handle Request.new_client = reply handle success
  parse_request os handle Request.close_client = pure tt
  parse_request os handle Request.node_failed = Nodes.node_failure handle
  parse_request os handle Request.heart_beat = pure tt
  parse_request os handle Request.unrecognized = pure tt
  parse_request os handle (Request.read_file file_no start offset size) =
      ignore (Data.send_data os handle file_no start offset size)
  parse_request os handle (Request.write_file file_no start offset size bytes) =
      ignore (Data.receive_data os handle file_no start offset size bytes)
  parse_request os handle (Request.open_file file_no exist_flag path blocks nodes) =
      Files.open_file os file_no exist_flag path blocks nodes
  parse_request os handle (Request.append_block file_no blocks) =
      ignore (Files.append_new_block file_no blocks)
  parse_request os handle (Request.rename file_no path) = Files.rename file_no path
  parse_request os handle (Request.flush_file file_no) = ignore (Files.flush_file file_no)
  parse_request os handle (Request.close_file file_no) = Files.close_file file_no
  parse_request os handle (Request.unlink file_no) = Files.remove_file file_no
  parse_request os handle (Request.truncate file_no start available_size) =
      Files.truncate_file file_no start available_size
  parse_request os handle (Request.data_sync file_no start offset size bytes) =
      ignore (Data.get_sync_data os handle file_no start offset size bytes)
  parse_request os handle (Request.new_io_node node) = Nodes.register_new_io_node handle node
  parse_request os handle (Request.remove_io_node node) = Nodes.remove_io_node node
  parse_request os handle (Request.promoted_to_primary_replica file_no node nodes) =
      ignore (Nodes.promoted_to_primary os file_no node nodes)
  parse_request os handle (Request.replace_replica file_no old_node new_node) =
      ignore (Nodes.replace_replica os file_no old_node new_node)
