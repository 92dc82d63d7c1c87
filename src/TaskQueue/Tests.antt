-- ===== src/TaskQueue/Tests.antt =====
-- Calls on a task queue at concrete states.
use huron_fs.Prelude.{ℕ, ◌≡◌, ◌≢◌, ◌↔◌, none, List, [], ◌∷◌, ◌++◌, arith}
use huron_fs.TaskQueue.{TaskQueue, init, allocate_tmp_node, task_enqueue, get_task, set_next}
use huron_fs.TaskQueue.View.{reserve, enqueue, take_task}
use huron_fs.TaskQueue.Refine.{
  Shows, Takes, initial, init-Shows, task_enqueue_refines, get_task_refines,
}
use huron_fs.TaskQueue.Reserve.{allocate_tmp_node_refines}
use huron_fs.TaskQueue.Layout.{Absent}
use huron_fs.TaskQueue.Fifo.{
  Run, start, reserves, enqueues, Run-fifo, Run-allocate_tmp_node, Run-get_task,
}

-- A queue with one task enqueued and one node reserved.
abbrev reserved_once : TaskQueue
reserved_once = (allocate_tmp_node init).1

abbrev enqueued_once : TaskQueue
enqueued_once = (allocate_tmp_node (task_enqueue reserved_once)).1

reserved_once-Shows : Shows reserved_once (reserve initial init.unused)
reserved_once-Shows = (allocate_tmp_node_refines init initial init-Shows).1

apart : reserved_once.queue_head ≢ reserved_once.queue_tmp_head
unfolding init set_next allocate_tmp_node
apart e = ground arith

one_task : Run (reserved_once.queue_head ∷ []) [] enqueued_once
one_task = reserves (enqueues apart (reserves start))

Run-fifo_example : (rest : List ℕ) × (reserved_once.queue_head ∷ [] ≡ [] ++ rest)
Run-fifo_example = Run-fifo one_task

Run-allocate_tmp_node_example :
    (rest : List ℕ) × (reserved_once.queue_head ∷ [] ≡ [] ++ rest)
    × Absent (allocate_tmp_node enqueued_once).0 (enqueued_once.queue_tail ∷ rest)
Run-allocate_tmp_node_example = Run-allocate_tmp_node one_task

Run-get_task_example : (get_task enqueued_once ≡ none) ↔ (reserved_once.queue_head ∷ [] ≡ [])
Run-get_task_example = Run-get_task one_task

get_task_refines_example :
    Takes
      (get_task (task_enqueue reserved_once))
      (take_task (enqueue (reserve initial init.unused)))
get_task_refines_example =
    get_task_refines (task_enqueue reserved_once) (enqueue (reserve initial init.unused)) (
      task_enqueue_refines reserved_once (reserve initial init.unused) reserve-ne
        reserved_once-Shows)
  where
    reserve-ne : (reserve initial init.unused).reserved ≢ []
    reserve-ne e = ground (arith)

task_enqueue_refines_example :
    Shows (task_enqueue reserved_once) (enqueue (reserve initial init.unused))
task_enqueue_refines_example =
    task_enqueue_refines reserved_once (reserve initial init.unused) (λ e. ground arith)
      reserved_once-Shows

allocate_tmp_node_refines_example :
    ((allocate_tmp_node init).0 ≡ initial.tmp)
    × Shows (allocate_tmp_node init).1 (reserve initial init.unused)
allocate_tmp_node_refines_example = allocate_tmp_node_refines init initial init-Shows
