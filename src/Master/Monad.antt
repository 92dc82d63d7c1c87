-- ===== src/Master/Monad.antt =====
-- Operations of the Master as pieces of C++ on its state.
pub mod Laws
unfoldable pub use huron_fs.Exec.{
  ◌>>=◌, ◌>>◌, pure, throw, fault, gets, modify, catch, deref, at, for_each,
}
use huron_fs.Prelude.{ℕ, [], ◌∷◌, ◌++◌}
use huron_fs.Prelude.Map.{ℕ_key, find, set}
use huron_fs.Master.{M, OpenFileInfo, Message, Task}

-- output_task_enqueue
abbrev pub send : Message → M (Unit {0})
send msg = modify λ s. record s { output = s.output ++ msg ∷ [] }

-- add_remote_task, and the calls that make a backup file
abbrev pub run_task : Task → M (Unit {0})
run_task t = modify λ s. record s { tasks = s.tasks ++ t ∷ [] }

-- The object behind an address.
abbrev pub read_file : ℕ → M OpenFileInfo
read_file a = do f ← gets (λ s. find a s.heap); deref f

abbrev pub write_file : ℕ → OpenFileInfo → M (Unit {0})
write_file a f = modify λ s. record s { heap = set a f s.heap }
