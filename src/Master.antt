-- ===== src/Master.antt =====
-- The metadata server: src/Master/include/Master_basic.h, src/Master/src/Master_basic.cpp,
-- src/Master/include/Master.h and src/Master/src/Master.cpp. This file has the data model; the
-- operations and their theorems stand in the modules below.
--
-- A `node_info*` is the node's id, which is never given out twice; a `Master_file_stat*` and an
-- iterator into `_file_stat_pool` are the path of the entry; an `open_file_info*` is an address in
-- `heap`, since two of them can have one file number. A handle is the number of a connection.
pub mod Blocks
pub mod Monad
pub mod Numbers
pub mod Start
pub mod Code
pub mod Send
pub mod Nodes
pub mod Files
pub mod Directory
pub mod Handlers
pub mod Entries
pub mod Failure
pub mod Request
mod Samples
mod Tests
pub use huron_fs.Exec.{
  Exception, out_of_range, runtime_error, bad_alloc, Outcome, returns, throws, undefined,
}
use huron_fs.Exec.{Exec}
use huron_fs.Prelude.{ℕ, Bool, Option, none, some, List, []}
use huron_fs.Prelude.Int.{ℤ, pos, negsuc}
use huron_fs.Prelude.Map.{Map, FilePath}
use Blocks.{BlockList}

-- std::set
abbrev pub Set : Type 0 → Type 0
Set K = Map K (Unit {0})

-- struct stat, the members that the Master sets
pub record Stat : Type 0 where
  pub st_size : ℕ
  pub st_mode : ℕ
  pub st_blksize : ℕ
  pub st_time : ℕ
  pub st_owner : ℕ

-- EXTERNAL, INTERNAL, RENAMED
pub data ExternalFlag : Type 0 where
  external internal renamed : ExternalFlag

-- node_info
pub record NodeInfo : Type 0 where
  pub handle : ℕ
  pub node_id : ℕ
  pub uri : FilePath
  pub stored_files : Set ℤ
  pub available_memory : ℕ
  pub total_memory : ℕ

-- Master_file_stat
pub record MasterFileStat : Type 0 where
  pub status : Stat
  pub name : FilePath
  pub external_flag : ExternalFlag
  pub external_master : ℤ
  pub external_name : FilePath
  pub exist_flag : ℕ
  pub opened_file_info : Option ℕ
  pub full_path : FilePath

-- open_file_info
pub record OpenFileInfo : Type 0 where
  pub file_no : ℤ
  pub block_list : BlockList
  pub io_nodes_set : Set ℕ
  pub primary_replica_node : Option ℕ
  pub block_size : ℕ
  pub open_count : ℕ
  pub flag : ℕ
  pub file_status : FilePath

-- What a message holds after its size, one entry for each push.
pub data Word : Type 0 where
  num : ℤ → Word
  text : FilePath → Word
  attr : Stat → Word

-- An answer to the connection of a request, a message to an IOnode, or a task node that is
-- enqueued without having been allocated for a message.
pub data Target : Type 0 where
  to_client to_node : ℕ → Target
  unreserved : Target

pub record Message : Type 0 where
  pub target : Target
  pub body : List Word

-- The tasks handed to the remote task thread, and the backup files made.
pub data Task : Type 0 where
  remote : ℕ → FilePath → ℕ → Task
  backup : FilePath → ℕ → Task

pub record Master : Type 0 where
  pub registered_io_nodes : Map ℕ NodeInfo
  pub current_io_node : Option ℕ
  pub file_stat_pool : Map FilePath MasterFileStat
  pub buffered_files : Map ℤ ℕ
  pub heap : Map ℕ OpenFileInfo
  pub next_address : ℕ
  pub file_number : ℕ
  pub node_id_pool : ℕ → Bool
  pub file_no_pool : ℕ → Bool
  pub current_node_number : ℕ
  pub current_file_no : ℕ
  pub mount_point : FilePath
  pub master_number : ℤ
  -- what time() and getuid() return
  pub clock : ℕ
  pub owner : ℕ
  pub output : List Message
  pub tasks : List Task

-- An operation of the Master
abbrev pub M : Type 0 → Type 0
M A = Exec Master A

-- SUCCESS, FAILURE and MYSELF
abbrev pub success : ℤ
success = pos 0

abbrev pub failure : ℤ
failure = negsuc 0

abbrev pub myself : ℤ
myself = negsuc 0
