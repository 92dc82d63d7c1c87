-- ===== src/Client.antt =====
-- The client library: src/Client/include/CBB_basic.h, src/Client/src/CBB_basic.cpp,
-- src/Client/include/CBB_client.h and src/Client/src/CBB_client.cpp, as built with TCP. This file
-- has the data model; the operations stand in the modules below.
--
-- A `file_meta*` is an address in `heap`, a `SCBB*` its index in the list of Masters, an
-- iterator into `_path_file_meta_map` the path, and a handle the number of a connection. The
-- servers at the other end are one state `Peer`, which a `Network` answers from. Positions and
-- sizes are nonnegative and below 2 ^ 63, and the size of one write is below 2 ^ 31.
pub mod Code
pub mod Query
pub mod Table
pub mod Blocks
pub mod Transfer
pub mod Remote
pub mod Descriptor
pub mod Paths
pub mod Retry
pub mod Stream
mod Samples
mod Tests
use huron_fs.Prelude.{ℕ, Bool, Option, List}
use huron_fs.Prelude.Int.{ℤ}
use huron_fs.Prelude.Map.{Map, FilePath}
use huron_fs.Exec.{Exec}
use huron_fs.Master.{Stat, Word, Set}

-- opened_file_info
pub record OpenedFileInfo : Type 0 where
  pub current_point : ℕ
  pub flag : ℕ
  pub file_meta : ℕ

-- file_meta; `path` is the key of `it`, and none before `it` is set.
pub record FileMeta : Type 0 where
  pub remote_file_no : ℤ
  pub open_count : ℕ
  pub block_size : ℕ
  pub file_stat : Stat
  pub opened_fd : Set ℕ
  pub corresponding_scbb : ℕ
  pub io_node_list_cache : Set ℤ
  pub block_list : Map ℕ ℕ
  pub need_update : Bool
  pub path : Option FilePath

-- SCBB; a handle is none where the entry was made without a connection.
pub record Scbb : Type 0 where
  pub io_node_list : Map ℤ (Option ℕ)
  pub id : ℕ
  pub master_handle : ℕ

-- What an answer holds: what is popped from it, and the data behind that.
pub record Answer : Type 0 where
  pub words : List Word
  pub bytes : List ℕ

-- The calls that leave the client: a query on a connection, with the bytes of its send buffer, and
-- its answer, or none where the connection is lost; a query that gets no answer; a query on a new
-- connection; std::hash<string>; time().
pub record Network (Peer : Type 0) : Type 0 where
  pub ask : ℕ → List Word → List ℕ → Peer → Option Answer × Peer
  pub tell : ℕ → List Word → Peer → Peer
  pub connect : FilePath → List Word → Peer → Option (ℕ × Answer) × Peer
  pub hash : FilePath → ℕ
  pub time : Peer → ℕ

-- CBB_client; `master_ip_list` are the addresses that the environment variable names,
-- `master_total` the static variable of _get_master_number_from_path, and `next_address` where
-- the next `new file_meta` stands.
pub record Client (Peer : Type 0) : Type 0 where
  pub fid_now : ℕ
  pub file_list : Map ℕ OpenedFileInfo
  pub opened_file : ℕ → Bool
  pub path_file_meta_map : Map FilePath ℕ
  pub heap : Map ℕ FileMeta
  pub next_address : ℕ
  pub thread_started : Bool
  pub master_handle_list : Map ℕ Scbb
  pub master_ip_list : Option (List FilePath)
  pub master_total : Option ℕ
  pub using_io_node_cache : Bool
  pub errno : ℤ
  pub peer : Peer

-- An operation of the client
abbrev pub M : Type 0 → Type 0 → Type 0
M Peer A = Exec (Client Peer) A
