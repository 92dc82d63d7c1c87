-- ===== src/Master/Monad/Laws.antt =====
-- How an operation of the Master reads an open file.
pub use huron_fs.Exec.Laws.{
  run-bind, run-then, run-catch_throws, run-catch_returns, run-deref, run-at, run-bind_throws,
  run-then_throws, run-bind_undefined, run-then_undefined,
}
use huron_fs.Prelude.{ℕ, ◌≡◌, some}
use huron_fs.Prelude.Map.{ℕ_key, find}
use huron_fs.Master.{Master, returns, OpenFileInfo}
use huron_fs.Master.Monad.{read_file}

pub run-read_file :
    (s : Master) (a : ℕ) (f : OpenFileInfo) → find a s.heap ≡ some f → read_file a s ≡ returns f s
run-read_file s a f e = run-deref (find a s.heap) f s e
