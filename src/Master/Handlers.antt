-- ===== src/Master/Handlers.antt =====
-- The handlers of requests on open files and of new connections in src/Master/src/Master.cpp. A
-- handler pops the arguments of its request, sends its answer and returns the error code; the
-- connection is its first argument. Logging and the log of times are left out.
pub mod Open
pub mod OpenFails
pub mod Write
use Prim.Native.Nat.{bit_and, bit_or}
use huron_fs.Prelude.{
  suc, zero, ℕ, ◌-◌, Bool, true, false, Option, none, some, [], ◌∷◌, ◌++◌, ◌==◌, if◌then◌else◌, not,
}
use huron_fs.Prelude.Int.{ℤ, negsuc}
use huron_fs.Prelude.Map.{ℕ_key, ℤ_key, path_key, FilePath, find}
use huron_fs.Block.{max_of}
use huron_fs.Master.{
  Master, M, Stat, MasterFileStat, external, OpenFileInfo, Exception, out_of_range, runtime_error,
  bad_alloc, Word, Message, to_client, to_node, num, attr, unreserved, success, failure,
}
use huron_fs.Master.Blocks.{allocate_new_blocks_for_writing, select_block_set}
use huron_fs.Master.Code
use huron_fs.Master.Monad.{
  ◌>>=◌, ◌>>◌, pure, throw, gets, catch, deref, at, send, read_file, write_file,
}
use huron_fs.Master.Nodes.{add_io_node}
use huron_fs.Master.Files.{regular, modify_stat, open_file}
use huron_fs.Master.Send.{int, live, to_io_node, reply, stat_of, send_block_info}

-- -ENOENT, UNKNOWN_ERROR, TOO_MANY_FILES and OUT_OF_RANGE
abbrev pub no_entry : Word
no_entry = num (negsuc 1)

abbrev pub unknown_error : Word
unknown_error = int 52

abbrev pub too_many_files : Word
too_many_files = int 50

abbrev pub code_out_of_range : Word
code_out_of_range = int 100

-- Master_file_stat::is_external
abbrev pub is_external : MasterFileStat → Bool
is_external st = elim st.external_flag [ external ↦ true | _ ↦ false ]

-- Server::_get_real_path
abbrev pub real_path : FilePath → Master → FilePath
real_path path s = s.mount_point ++ path

-- O_CREAT, and what O_CREAT clears
abbrev pub creates : ℕ → Bool
creates flag = not (bit_and flag 0o100 == 0)

abbrev pub cleared : ℕ → ℕ
cleared flag = if creates flag then flag - bit_and flag 0o1100 else flag

-- _buffered_files.at
abbrev pub file_at : ℤ → M ℕ
file_at file_no = do a ← gets (λ s. find file_no s.buffered_files); at a

-- Master::_parse_open_file, of a path that is not external.
unfoldable pub open_here : ℕ → FilePath → ℕ → ℕ → M ℤ
open_here client path flag mode = do
  file_no ← open_file path flag mode
  a ← file_at file_no
  f ← read_file a
  st ← stat_of f
  reply client (int 0 ∷ num file_no ∷ int f.block_size ∷ attr st.status ∷ [])
  pure success

unfoldable pub open_failed : ℕ → Exception → M ℤ
open_failed client runtime_error = do reply client (unknown_error ∷ []); pure failure
open_failed client bad_alloc = do reply client (too_many_files ∷ []); pure failure
open_failed client out_of_range = throw out_of_range

-- `mode` is the one popped if the flag has O_CREAT, and S_IFREG|0660 otherwise.
unfoldable pub open_entry : ℕ → FilePath → ℕ → ℕ → Option MasterFileStat → M ℤ
open_entry client path flag mode none = catch (open_here client path flag mode) (open_failed client)
open_entry client path flag mode (some st) =
    if is_external st
    then (do reply client (num st.external_master ∷ []); pure success)
    else catch (open_here client path flag mode) (open_failed client)

unfoldable pub parse_open_file : ℕ → FilePath → ℕ → ℕ → M ℤ
parse_open_file client path flag mode = do
  entry ← gets (λ s. find path s.file_stat_pool)
  open_entry client path (cleared flag) (if creates flag then mode else bit_or regular 0o660) entry

-- Recv_attr on the status of a file, which keeps the larger size.
unfoldable pub receive_attr : OpenFileInfo → Stat → M (Unit {0})
receive_attr f new =
    modify_stat f.file_status
      λ st. record st { status = record new { st_size = max_of new.st_size st.status.st_size } }

-- Master::_parse_meta_update, which has no answer.
unfoldable pub parse_meta_update : ℤ → Stat → M ℤ
parse_meta_update file_no new =
    catch (do a ← file_at file_no; f ← read_file a; receive_attr f new; pure success)
      λ _. pure failure

-- The end of a read or a write: the blocks of the range and the primary.
unfoldable pub answer_blocks : ℕ → ℕ → ℕ → OpenFileInfo → M ℤ
answer_blocks client start_point size f = do
  primary ← deref f.primary_replica_node
  live primary
  blocks ← deref (select_block_set start_point size f.block_list)
  st ← stat_of f
  nodes ← gets (λ s. s.registered_io_nodes)
  send_block_info client st.status.st_size nodes ((primary, tt) ∷ []) blocks
  pure success

unfoldable pub no_such_file : ℕ → Exception → M ℤ
no_such_file client _ = do reply client (code_out_of_range ∷ []); pure failure

-- The try blocks of _parse_read_file and _parse_write_file
unfoldable pub read_here : ℕ → ℤ → ℕ → ℕ → M ℤ
read_here client file_no start_point size = do
  a ← file_at file_no
  f ← read_file a
  answer_blocks client start_point size f

unfoldable pub write_here : ℕ → ℤ → Stat → ℕ → ℕ → M ℤ
write_here client file_no new start_point size = do
  a ← file_at file_no
  f ← read_file a
  receive_attr f new
  write_file a
      (record f { block_list = allocate_new_blocks_for_writing start_point size f.block_list })
  f' ← read_file a
  answer_blocks client start_point size f'

-- Master::_parse_read_file
unfoldable pub parse_read_file : ℕ → ℤ → ℕ → ℕ → M ℤ
parse_read_file client file_no start_point size =
    catch (read_here client file_no start_point size) (no_such_file client)

-- Master::_parse_write_file
unfoldable pub parse_write_file : ℕ → ℤ → Stat → ℕ → ℕ → M ℤ
parse_write_file client file_no new start_point size =
    catch (write_here client file_no new start_point size) (no_such_file client)

-- The answer to a flush or a close of a file that is not open
unfoldable pub not_open : ℕ → Exception → M ℤ
not_open client _ = do reply client (num failure ∷ []); pure failure

-- output_task_enqueue in a handler that holds `n` tasks which it has allocated and not yet enqueued;
-- the result is how many are left. Where there is none, the queue moves past a node that was not
-- allocated.
unfoldable pub enqueue : ℕ → Message → M ℕ
enqueue zero m = do send (record { target = unreserved; body = [] }); pure 0
enqueue (suc n) m = do send m; pure n

-- The try block of _parse_flush_file, with one task allocated for the answer, and the enqueueing of
-- the answer behind it
unfoldable pub flush_here : ℕ → ℤ → M ℤ
flush_here client file_no = do
  let answer : Message = record { target = to_client client; body = int 0 ∷ [] }
  a ← file_at file_no
  f ← read_file a
  left ← enqueue 1 answer
  primary ← deref f.primary_replica_node
  live primary
  let order : Message = record {
    target = to_node primary;
    body = int Code.flush_file ∷ num file_no ∷ [];
  }
  left ← enqueue (suc left) order
  _ ← enqueue left answer
  pure success

-- Master::_parse_flush_file
unfoldable pub parse_flush_file : ℕ → ℤ → M ℤ
parse_flush_file client file_no = catch (flush_here client file_no) (not_open client)

-- The try block of _parse_close_file
unfoldable pub close_here : ℕ → ℤ → M ℤ
close_here client file_no = do
  a ← file_at file_no
  f ← read_file a
  reply client (int 0 ∷ [])
  primary ← deref f.primary_replica_node
  to_io_node primary (int Code.close_file ∷ num file_no ∷ [])
  pure success

-- Master::_parse_close_file
unfoldable pub parse_close_file : ℕ → ℤ → M ℤ
parse_close_file client file_no = catch (close_here client file_no) (not_open client)

-- Master::_parse_register_IOnode
unfoldable pub parse_register_io_node : ℕ → FilePath → ℕ → M ℤ
parse_register_io_node client uri total_memory = do
  id ← add_io_node uri total_memory client
  reply client (num id ∷ [])
  pure success

-- Master::_parse_new_client
unfoldable pub parse_new_client : ℕ → M ℤ
parse_new_client client = do reply client (int 0 ∷ []); pure success
