-- ===== src/Master/Files/Open.antt =====
-- A file that is opened for the first time.
use Prim.Native.Nat.{bit_and}
use huron_fs.Prelude.{
  Bool, not, if◌then◌else◌, ℕ, suc, ◌≡◌, refl, ◌∙◌, true, false, none, some, List, ◌==◌,
}
use huron_fs.Prelude.Int.{pos}
use huron_fs.Prelude.Map.{ℕ_key, ℤ_key, path_key, Map, FilePath, find, set, insert, find-set_self}
use huron_fs.Block.{get_block_size}
use huron_fs.Master.{Master, MasterFileStat, OpenFileInfo, Task, backup, returns}
use huron_fs.Master.Monad.{pure, run_task}
use huron_fs.Master.Monad.Laws.{run-then}
use huron_fs.Master.Files.{
  regular, directory, default_stat, modify_stat, create_new_backup_file, created,
  create_new_file_stat, new_open_file_info, enter_file,
}

run-either :
    (s : Master) (b c : Bool) (t : Task)
    → (ts : List Task) × ((if b then run_task t else (if c then run_task t else pure tt)) s
        ≡ returns tt (record s { tasks = ts }))
run-either s true c t = (_, refl)
run-either s false true t = (_, refl)
run-either s false false t = (s.tasks, refl)

run-create_new_backup_file :
    (s : Master) (path : FilePath) (mode : ℕ)
    → (ts : List Task) × (create_new_backup_file path mode s ≡ returns tt (record s { tasks = ts }))
unfolding create_new_backup_file
run-create_new_backup_file s path mode =
    run-either s (not (bit_and regular mode == 0)) (not (bit_and directory mode == 0))
      (backup path mode)

pub run-modify_stat :
    (s : Master) (path : FilePath) (f : MasterFileStat → MasterFileStat) (st : MasterFileStat)
    → find path s.file_stat_pool ≡ some st
    → modify_stat path f s
      ≡ returns tt (record s { file_stat_pool = set path (f st) s.file_stat_pool })
run-modify_stat s path f st e = rw (modify_stat, e) refl

-- The entry of a path that had none.
abbrev pub with_entry : FilePath → ℕ → ℕ → List Task → Master → Master
with_entry path exist_flag mode ts s = record s {
  file_stat_pool =
      set path (created path exist_flag mode s default_stat)
        (insert path default_stat s.file_stat_pool);
  tasks = ts;
}

pub find-insert :
    (path : FilePath) (st : MasterFileStat) (m : Map FilePath MasterFileStat)
    → find path m ≡ none
    → find path (insert path st m) ≡ some st
unfolding insert
find-insert path st m e = rw (insert, e) (find-set_self path st m)

pub run-create_new_file_stat :
    (s : Master) (path : FilePath) (exist_flag mode : ℕ)
    → find path s.file_stat_pool ≡ none
    → (ts : List Task) × (create_new_file_stat path exist_flag mode s
        ≡ returns tt (with_entry path exist_flag mode ts s))
unfolding create_new_file_stat
run-create_new_file_stat s path exist_flag mode e =
    let s₁ : Master = record s { file_stat_pool = insert path default_stat s.file_stat_pool } in
    let s₂ : Master = with_entry path exist_flag mode s.tasks s in
    let (ts, run) = run-create_new_backup_file s₂ path mode in
    (
      ts,
      run-then (modify_stat path (created path exist_flag mode s)) _ tt s₁ s₂ (
            run-modify_stat s₁ path (created path exist_flag mode s) default_stat
              (find-insert path default_stat s.file_stat_pool e))
          ∙ run,
    )

-- The object of a file that is opened, before a node is chosen.
abbrev pub unplaced : ℕ → ℕ → FilePath → OpenFileInfo
unplaced n flag path = record (new_open_file_info (pos n) flag path) {
  block_size = get_block_size 0;
}

abbrev pub entered : ℕ → ℕ → FilePath → MasterFileStat → Master → Master
entered n flag path st s = record s {
  heap = set s.next_address (unplaced n flag path) s.heap;
  next_address = suc s.next_address;
  buffered_files = insert (pos n) s.next_address s.buffered_files;
  file_stat_pool = set path (record st { opened_file_info = some s.next_address }) s.file_stat_pool;
}

pub run-enter_file :
    (s : Master) (n flag : ℕ) (path : FilePath) (st : MasterFileStat)
    → find path s.file_stat_pool ≡ some st
    → enter_file (pos n) flag path s ≡ returns s.next_address (entered n flag path st s)
unfolding enter_file
run-enter_file s n flag path st e =
    run-then (modify_stat path λ st. record st { opened_file_info = some s.next_address }) _ tt
      (record s {
        heap = set s.next_address (unplaced n flag path) s.heap;
        next_address = suc s.next_address;
        buffered_files = insert (pos n) s.next_address s.buffered_files;
      })
      (entered n flag path st s)
      (run-modify_stat _ path (λ st. record st { opened_file_info = some s.next_address }) st e)
