-- ===== src/Master/Files.antt =====
-- File metadata and open files: Master::_create_new_file_stat, _create_new_backup_file,
-- _create_new_open_file_info, _open_file, _remove_open_file, _remove_file and _rename_local_file.
pub mod Remove
pub mod Open
pub mod Place
use Prim.Native.Nat.{bit_and, bit_or}
use huron_fs.Prelude.{ℕ, suc, ◌+◌, Option, none, some, [], ◌==◌, if◌then◌else◌, length, not}
use huron_fs.Prelude.Int.{ℤ, pos, negsuc}
use huron_fs.Prelude.Map.{ℕ_key, ℤ_key, path_key, FilePath, find, set, insert, erase}
use huron_fs.Block.{get_block_size, min_of}
use huron_fs.Master.{
  Exception, Master, M, MasterFileStat, internal, OpenFileInfo, bad_alloc, returns, undefined,
  backup, success, failure,
}
use huron_fs.Master.Blocks.{create_block_list}
use huron_fs.Master.Monad.{
  ◌>>=◌, ◌>>◌, pure, throw, gets, modify, catch, deref, for_each, run_task, read_file, write_file,
}
use huron_fs.Master.Numbers.{get_file_no, release_file_no}
use huron_fs.Master.Nodes.{select_io_node, update_node, without_file}
use huron_fs.Master.Send.{
  keys, stat_of, send_open_request_to_io_nodes, send_remove_request, send_rename_request,
}

-- S_IFREG and S_IFDIR
abbrev pub regular : ℕ
regular = 0o100000

abbrev pub directory : ℕ
directory = 0o40000

-- NUM_OF_REPLICA
abbrev pub num_of_replica : ℕ
num_of_replica = 0

-- EXISTING and NOT_EXIST
abbrev pub existing : ℕ
existing = 1

abbrev pub not_exist : ℕ
not_exist = 0

-- Master_file_stat::Master_file_stat()
abbrev pub default_stat : MasterFileStat
default_stat = record {
  status = record { st_size = 0; st_mode = 0; st_blksize = 0; st_time = 0; st_owner = 0 };
  name = [];
  external_flag = internal;
  external_master = pos 0;
  external_name = [];
  exist_flag = 0;
  opened_file_info = none;
  full_path = [];
}

abbrev pub modify_stat : FilePath → (MasterFileStat → MasterFileStat) → M (Unit {0})
modify_stat path f s = elim (find path s.file_stat_pool) [
  | none ↦ undefined
  | some st ↦ returns tt (record s { file_stat_pool = set path (f st) s.file_stat_pool })
]

-- Master::_create_new_backup_file; its result is not used.
unfoldable pub create_new_backup_file : FilePath → ℕ → M (Unit {0})
create_new_backup_file path mode =
    if not (bit_and regular mode == 0)
    then run_task (backup path mode)
    else (if not (bit_and directory mode == 0) then run_task (backup path mode) else pure tt)

-- Master::_create_new_file_stat. An entry that is there keeps what is not assigned.
unfoldable pub created : FilePath → ℕ → ℕ → Master → MasterFileStat → MasterFileStat
created path exist_flag mode s st = record st {
  status = record {
    st_size = 0;
    st_mode = mode;
    st_blksize = 1048576;
    st_time = s.clock;
    st_owner = s.owner;
  };
  exist_flag = exist_flag;
  full_path = path;
}

unfoldable pub create_new_file_stat : FilePath → ℕ → ℕ → M (Unit {0})
create_new_file_stat path exist_flag mode = do
  s ← gets (λ s. s)
  modify λ s. record s { file_stat_pool = insert path default_stat s.file_stat_pool }
  modify_stat path (created path exist_flag mode s)
  create_new_backup_file path mode

-- open_file_info::open_file_info
unfoldable pub new_open_file_info : ℤ → ℕ → FilePath → OpenFileInfo
new_open_file_info file_no flag path = record {
  file_no = file_no;
  block_list = [];
  io_nodes_set = [];
  primary_replica_node = none;
  block_size = 0;
  open_count = 1;
  flag = flag;
  file_status = path;
}

-- The body of the try block of _create_new_open_file_info, from the selection of nodes on.
unfoldable pub place_file : ℕ → ℤ → M (Unit {0})
place_file a file_no = do
  size ← gets (λ s. length s.registered_io_nodes)
  selected ← select_io_node file_no (min_of num_of_replica size)
  f ← read_file a
  st ← stat_of f
  blocks ← deref (create_block_list st.status.st_size f.block_size f.block_list)
  write_file a (record f {
    primary_replica_node = some selected.0;
    io_nodes_set = selected.1;
    block_list = blocks;
  })
  placed ← read_file a
  send_open_request_to_io_nodes placed selected.0
  for_each (keys selected.1) (send_open_request_to_io_nodes placed)

-- The object is entered in both maps before the nodes are selected.
unfoldable pub enter_file : ℤ → ℕ → FilePath → M ℕ
enter_file file_no flag path = do
  a ← gets (λ s. s.next_address)
  modify λ s. record s {
    heap =
        set a (record (new_open_file_info file_no flag path) { block_size = get_block_size 0 })
          s.heap;
    next_address = suc a;
    buffered_files = insert file_no a s.buffered_files;
  }
  modify_stat path λ st. record st { opened_file_info = some a }
  pure a

-- The number is given back before the exception goes on.
unfoldable pub give_back : ℤ → Exception → M (Unit {0})
give_back file_no e = do release_file_no file_no; throw e

-- Master::_create_new_open_file_info; runtime_error gives the number back and goes on.
unfoldable pub create_new_open_file_info : ℤ → ℕ → FilePath → M ℕ
create_new_open_file_info file_no flag path = do
  a ← enter_file file_no flag path
  catch (place_file a file_no) (give_back file_no)
  pure a

-- ++file->open_count
unfoldable pub count_open : ℕ → M (Unit {0})
count_open a = do f ← read_file a; write_file a (record f { open_count = f.open_count + 1 })

unfoldable pub open_new : FilePath → ℕ → ℕ → ℤ → M ℤ
open_new path flag mode (negsuc n) = throw bad_alloc
open_new path flag mode (pos n) = do
  create_new_file_stat path not_exist (bit_or regular mode)
  _ ← create_new_open_file_info (pos n) flag path
  pure (pos n)

-- A file with metadata that is not open is opened under a new number, which is not checked.
unfoldable pub open_known : FilePath → ℕ → Option ℕ → M ℤ
open_known path flag none = do
  file_no ← get_file_no
  a ← create_new_open_file_info file_no flag path
  count_open a
  pure file_no
open_known path flag (some a) = do f ← read_file a; count_open a; pure f.file_no

unfoldable pub open_found : FilePath → ℕ → ℕ → Option MasterFileStat → M ℤ
open_found path flag mode none = do file_no ← get_file_no; open_new path flag mode file_no
open_found path flag mode (some st) = open_known path flag st.opened_file_info

-- Master::_open_file, which hands the number back through a reference.
unfoldable pub open_file : FilePath → ℕ → ℕ → M ℤ
open_file path flag mode = do
  entry ← gets (λ s. find path s.file_stat_pool)
  open_found path flag mode entry

-- The messages and the bookkeeping of a node that loses a file.
unfoldable pub forget_file : ℤ → ℕ → M (Unit {0})
forget_file file_no id = do send_remove_request file_no id; update_node (without_file file_no) id

-- Master::_remove_open_file
unfoldable pub remove_open_file : ℕ → M (Unit {0})
remove_open_file a = do
  f ← read_file a
  primary ← deref f.primary_replica_node
  forget_file f.file_no primary
  for_each (keys f.io_nodes_set) (forget_file f.file_no)
  modify λ s. record s { buffered_files = erase f.file_no s.buffered_files; heap = erase a s.heap }
  release_file_no f.file_no

-- Master::_remove_file
abbrev pub remove_opened : FilePath → Option ℕ → M ℤ
remove_opened path opened = do
  elim opened [ none ↦ pure tt | some a ↦ remove_open_file a ]
  modify λ s. record s { file_stat_pool = erase path s.file_stat_pool }
  pure success

unfoldable pub remove_entry : FilePath → Option MasterFileStat → M ℤ
remove_entry path none = pure failure
remove_entry path (some st) = remove_opened path st.opened_file_info

unfoldable pub remove_file : FilePath → M ℤ
remove_file path = do entry ← gets (λ s. find path s.file_stat_pool); remove_entry path entry

-- The open file of a renamed entry, and the messages to its nodes.
unfoldable pub rename_opened : FilePath → Option ℕ → M (Unit {0})
rename_opened path none = pure tt
rename_opened path (some a) = do
  f ← read_file a
  write_file a (record f { file_status = path })
  primary ← deref f.primary_replica_node
  send_rename_request f.file_no path primary
  for_each (keys f.io_nodes_set) (send_rename_request f.file_no path)

-- Master::_rename_local_file: a copy of the entry under the new path.
unfoldable pub rename_local_file : MasterFileStat → FilePath → M (Unit {0})
rename_local_file st path = do
  modify λ s. record s { file_stat_pool = insert path st s.file_stat_pool }
  modify_stat path λ new. record new { full_path = path }
  entry ← gets (λ s. find path s.file_stat_pool)
  new ← deref entry
  rename_opened path new.opened_file_info
