-- ===== src/IoNode.antt =====
-- The IOnode: src/IOnode/include/IOnode_basic.h, src/IOnode/src/IOnode_basic.cpp,
-- src/IOnode/include/IOnode.h and src/IOnode/src/IOnode.cpp, as built with TCP. This file has the
-- data model; the operations stand in the modules below.
--
-- A `file*` is the file's number, a `block*` that number with the block's start point, a
-- `memory_elem*` the number of the element in the memory pool, whose bytes are `memory`. Locks are
-- left out: an operation is one step.
pub mod Access
pub mod Blocks
pub mod Storage
pub mod Replacement
pub mod Data
pub mod Files
pub mod Nodes
pub mod Request
mod Tests
use huron_fs.Prelude.{ℕ, Bool, true, false, Option, none, some, List, []}
use huron_fs.Prelude.Int.{ℤ}
use huron_fs.Prelude.Map.{Map, FilePath}
use huron_fs.Prelude.Memory.{Memory}
use huron_fs.MemoryPool.{MemoryPool}
use huron_fs.Swap.{AccessQueue}
use huron_fs.Exec.{Exec}

-- postponed_operation: CLEAN, TO_BE_DELETED, TO_BE_CLOSED
pub data Postponed : Type 0 where
  nothing to_be_deleted to_be_closed : Postponed

-- block; `data` is the memory of `elem`, null together with it, and block_size is BLOCK_SIZE.
pub record Block : Type 0 where
  pub start_point : ℕ
  pub data_size : ℕ
  pub elem : Option ℕ
  pub dirty : Bool
  pub valid : Bool
  pub swapped_out : Bool
  pub writing_back : Bool
  pub receiving_data : Bool
  pub exist_flag : ℕ
  pub postponed : Postponed
  pub writeback_page : Option ℕ

-- file; a descriptor is whether it is open. dirty_pages_count is read nowhere.
pub record File : Type 0 where
  pub file_path : FilePath
  pub exist_flag : ℕ
  pub closed : Bool
  pub dirty : Bool
  pub postponed : Postponed
  pub blocks : Map ℕ Block
  -- Its handles are those of handle_pool
  pub io_node_pool : Map ℤ (Unit {0})
  pub read_remote_fd : Bool
  pub write_remote_fd : Bool

abbrev pub BlockId : Type 0
BlockId = ℤ × ℕ

-- A piece of a block's memory in the send buffer of a message
pub record Segment : Type 0 where
  pub elem : Option ℕ
  pub offset : ℕ
  pub size : ℕ

pub record Message : Type 0 where
  pub target : ℕ
  pub body : List ℤ
  pub segments : List Segment

-- data_sync_task: DATA_SYNC_INIT and DATA_SYNC_WRITE
pub data SyncTask : Type 0 where
  sync_init : ℤ → ℤ → SyncTask
  sync_write : ℤ → ℕ → ℕ → ℕ → ℕ → SyncTask

pub record IoNode (Disk : Type 0) : Type 0 where
  pub my_node_id : ℤ
  pub files : Map ℤ File
  pub mount_point : FilePath
  pub handle_pool : Map ℤ ℕ
  pub writeback_queue : List BlockId
  -- writeback_status is IDLE
  pub idle : Bool
  pub pool : MemoryPool
  pub memory : ℕ → Memory
  pub queue : AccessQueue BlockId
  pub remove_file_list : List ℤ
  pub open_file_count : ℕ
  pub disk : Disk
  pub output : List Message
  pub sync_tasks : List SyncTask
  -- how often a background write-back was added
  pub remote_tasks : ℕ

-- The directory of a file: there, missing, or not to be opened
pub data Directory : Type 0 where
  present missing refused : Directory

-- The flags of an open64: for writing or for reading only, O_CREAT, and O_DIRECT
pub record OpenMode : Type 0 where
  pub writes : Bool
  pub creat : Bool
  pub direct : Bool

-- What the operating system does: malloc, opendir, open64, lseek to an offset of an open file, readv
-- and write at an offset, and the handle of a new connection. open64 is none where it fails; it may
-- make the file. lseek says whether it succeeds. readv returns the bytes of one call, none at the end
-- of the file or on an error. write returns how many bytes it took, 0 where it fails, and is none
-- where it fails by EINVAL, which the caller tries again for ever. All files are opened with
-- O_DIRECT, so EINVAL is what an offset or a size out of alignment gives.
pub record System (Disk : Type 0) : Type 0 where
  pub malloc_ok : ℕ → Bool
  pub directory : Disk → FilePath → Directory
  pub opens : Disk → FilePath → OpenMode → Option Disk
  pub lseek : Disk → FilePath → ℕ → Bool
  pub readv : Disk → FilePath → ℕ → ℕ → List ℕ
  pub write : Disk → FilePath → ℕ → List ℕ → Option (ℕ × Disk)
  pub connect : FilePath → ℕ

abbrev pub M : Type 0 → Type 0 → Type 0
M Disk A = Exec (IoNode Disk) A

-- MAX_OPEN_FILE_COUNT
abbrev pub max_open_file_count : ℕ
max_open_file_count = 4096

-- WRITEBACK_COUNTS
abbrev pub writeback_counts : ℕ
writeback_counts = 2
