-- ===== src/Master/Entries.antt =====
-- The handlers of requests on paths in src/Master/src/Master.cpp: _parse_attr, _parse_access,
-- _parse_readdir, _parse_unlink, _parse_rmdir, _parse_mkdir, _parse_rename, _parse_rename_migrating
-- and _parse_truncate_file.
pub mod Rename
use Prim.Native.Nat.{bit_or}
use huron_fs.Prelude.{ℕ, Option, none, some, List, [], ◌∷◌, ltb, if◌then◌else◌, length}
use huron_fs.Prelude.Int.{ℤ, pos, negsuc}
use huron_fs.Prelude.Map.{ℕ_key, ℤ_key, path_key, FilePath, find, insert, erase, same}
use huron_fs.Block.{get_block_start_point}
use huron_fs.Master.{
  M, Set, MasterFileStat, external, renamed, OpenFileInfo, remote, Word, num, text, attr, success,
  failure, myself,
}
use huron_fs.Master.Blocks.{truncate_blocks}
use huron_fs.Master.Code
use huron_fs.Master.Monad.{
  ◌>>=◌, ◌>>◌, pure, gets, modify, deref, for_each, run_task, read_file, write_file,
}
use huron_fs.Master.Files.{
  directory, not_exist, default_stat, modify_stat, create_new_file_stat, remove_file,
  rename_local_file,
}
use huron_fs.Master.Send.{int, reply, keys, stat_of, send_truncate_request}
use huron_fs.Master.Directory.{get_file_stat_from_dir}
use huron_fs.Master.Handlers.{no_entry, is_external, real_path}

unfoldable pub answer_entry : ℕ → (MasterFileStat → List Word) → Option MasterFileStat → M ℤ
answer_entry client words none = do
  me ← gets (λ s. s.master_number)
  reply client (num me ∷ no_entry ∷ [])
  pure failure
answer_entry client words (some st) = do
  me ← gets (λ s. s.master_number)
  reply client (if is_external st then num st.external_master ∷ [] else num me ∷ int 0 ∷ words st)
  pure success

-- Master::_parse_attr
unfoldable pub parse_attr : ℕ → FilePath → M ℤ
parse_attr client path = do
  entry ← gets (λ s. find path s.file_stat_pool)
  answer_entry client (λ st. attr st.status ∷ []) entry

-- Master::_parse_access; the mode asked for is not looked at.
unfoldable pub parse_access : ℕ → FilePath → ℕ → M ℤ
parse_access client path mode = do
  entry ← gets (λ s. find path s.file_stat_pool)
  answer_entry client (λ st. []) entry

unfoldable pub name_words : Set FilePath → List Word
name_words [] = []
name_words ((name, _) ∷ m) = text name ∷ name_words m

-- Master::_parse_readdir
unfoldable pub parse_readdir : ℕ → FilePath → M ℤ
parse_readdir client path = do
  files ← gets (λ s. get_file_stat_from_dir path s.file_stat_pool)
  reply client (int 0 ∷ int (length files) ∷ name_words files)
  pure success

-- The answer of unlink and rmdir
unfoldable pub answer_removed : ℕ → ℤ → M ℤ
answer_removed client (pos n) = do reply client (int 0 ∷ []); pure success
answer_removed client (negsuc n) = do reply client (no_entry ∷ []); pure failure

-- Master::_parse_unlink
unfoldable pub parse_unlink : ℕ → FilePath → M ℤ
parse_unlink client path = do
  removed ← remove_file path
  real ← gets (real_path path)
  run_task (remote Code.unlink real 0)
  answer_removed client removed

-- Master::_parse_rmdir
unfoldable pub parse_rmdir : ℕ → FilePath → M ℤ
parse_rmdir client path = do
  removed ← remove_file path
  real ← gets (real_path path)
  run_task (remote Code.rm_dir real 0)
  answer_removed client removed

-- Master::_parse_mkdir; nothing is pushed onto the answer.
unfoldable pub parse_mkdir : ℕ → FilePath → ℕ → M ℤ
parse_mkdir client path mode = do
  create_new_file_stat path not_exist (bit_or mode directory)
  real ← gets (real_path path)
  run_task (remote Code.mkdir real (bit_or mode directory))
  reply client []
  pure success

-- The entry that is renamed is found before the old entry of the new path is removed; its
-- iterator is not valid if that is the same entry.
unfoldable pub rename_found : FilePath → FilePath → Option MasterFileStat → M (Unit {0})
rename_found old_path new_path none = pure tt
rename_found old_path new_path (some _) = do
  entry ← gets (λ s. find old_path s.file_stat_pool)
  st ← deref entry
  rename_local_file st new_path
  modify λ s. record s { file_stat_pool = erase old_path s.file_stat_pool }

unfoldable pub rename_away : FilePath → FilePath → Option MasterFileStat → M (Unit {0})
rename_away old_path new_path none = pure tt
rename_away old_path new_path (some _) =
    modify_stat old_path λ st. record st { external_flag = renamed; external_name = new_path }

unfoldable pub rename_here : FilePath → FilePath → Option MasterFileStat → M (Unit {0})
rename_here old_path new_path entry = do
  _ ← remove_file new_path
  rename_found old_path new_path entry

-- Master::_parse_rename
unfoldable pub parse_rename : ℕ → FilePath → FilePath → ℤ → M ℤ
parse_rename client old_path new_path new_master = do
  entry ← gets (λ s. find old_path s.file_stat_pool)
  (if same new_master myself
      then rename_here old_path new_path entry
      else rename_away old_path new_path entry)
  reply client (int 0 ∷ [])
  pure success

-- Master::_parse_rename_migrating
unfoldable pub parse_rename_migrating : ℕ → FilePath → ℤ → M ℤ
parse_rename_migrating client path old_master = do
  modify λ s. record s {
    file_stat_pool = insert path (record default_stat { full_path = path }) s.file_stat_pool;
  }
  modify_stat path λ st. record st { external_flag = external; external_master = old_master }
  reply client (int 0 ∷ [])
  pure success

-- Master::_parse_truncate_file, of an entry of this Master.
unfoldable pub shrink : ℕ → ℕ → OpenFileInfo → M (Unit {0})
shrink size a f = do
  primary ← deref f.primary_replica_node
  send_truncate_request f.file_no (get_block_start_point size) size primary
  for_each (keys f.io_nodes_set) (send_truncate_request f.file_no (get_block_start_point size) size)
  write_file a (record f { block_list = truncate_blocks size f.block_list })

unfoldable pub truncate_here : ℕ → FilePath → ℕ → MasterFileStat → M ℤ
truncate_here client path size st = do
  a ← deref st.opened_file_info
  f ← read_file a
  open_st ← stat_of f
  (if ltb size open_st.status.st_size then shrink size a f else pure tt)
  modify_stat f.file_status λ st. record st { status = record (st.status) { st_size = size } }
  me ← gets (λ s. s.master_number)
  reply client (num me ∷ int 0 ∷ [])
  pure success

unfoldable pub truncate_entry : ℕ → FilePath → ℕ → Option MasterFileStat → M ℤ
truncate_entry client path size none = do
  me ← gets (λ s. s.master_number)
  reply client (num me ∷ no_entry ∷ [])
  pure failure
truncate_entry client path size (some st) =
    if is_external st
    then (do reply client (num st.external_master ∷ []); pure success)
    else truncate_here client path size st

-- Master::_parse_truncate_file
unfoldable pub parse_truncate_file : ℕ → FilePath → ℕ → M ℤ
parse_truncate_file client path size = do
  entry ← gets (λ s. find path s.file_stat_pool)
  truncate_entry client path size entry
