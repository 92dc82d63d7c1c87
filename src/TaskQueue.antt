-- ===== src/TaskQueue.antt =====
-- src/Common/include/CBB_task_parallel.h: the ring of task nodes by which a communication thread
-- and a handler thread pass messages. Nodes are addresses, `next` holds their links. The order
-- round the ring is queue_tail, the queued tasks, queue_head, the reserved nodes, queue_tmp_head
-- and the free nodes, as in the source's comment.
pub mod Layout
pub mod View
pub mod Refine
pub mod Reserve
pub mod Fifo
mod Tests
use huron_fs.Prelude.{ℕ, suc, ◌+◌, Bool, Option, none, some, ◌==◌, if◌then◌else◌}

pub record TaskQueue : Type 0 where
  pub next : ℕ → ℕ
  pub queue_head : ℕ
  pub queue_tail : ℕ
  pub queue_tmp_head : ℕ
  pub length_of_queue : ℕ
  -- the address that the next `new task_type` returns
  pub unused : ℕ

-- basic_task::set_next
pub set_next : (ℕ → ℕ) → ℕ → ℕ → ℕ → ℕ
set_next next node target n = if n == node then target else next n

-- task_parallel_queue::task_parallel_queue: two nodes, each the next of the other.
pub init : TaskQueue
unfolding set_next
init = record {
  next = set_next (set_next (λ n. n) 0 1) 1 0;
  queue_head = 1;
  queue_tail = 0;
  queue_tmp_head = 1;
  length_of_queue = 2;
  unused = 2;
}

-- task_parallel_queue::is_empty
pub is_empty : TaskQueue → Bool
is_empty q = q.next q.queue_tail == q.queue_head

-- task_parallel_queue::allocate_tmp_node
pub allocate_tmp_node : TaskQueue → ℕ × TaskQueue
allocate_tmp_node q =
    if q.queue_tail == q.next q.queue_tmp_head
    then (
      q.queue_tmp_head,
      record q {
        next =
            set_next (set_next q.next q.unused (q.next q.queue_tmp_head)) q.queue_tmp_head q.unused;
        queue_tmp_head = q.unused;
        length_of_queue = q.length_of_queue + 1;
        unused = suc q.unused;
      },
    )
    else (q.queue_tmp_head, record q { queue_tmp_head = q.next q.queue_tmp_head })

-- task_parallel_queue::task_enqueue, task_enqueue_no_notification and
-- task_enqueue_signal_notification move the head alike. The write to the event descriptor by which
-- task_enqueue wakes the other thread is not modelled; task_enqueue returns FAILURE where that write
-- fails, after the head has moved all the same.
pub task_enqueue : TaskQueue → TaskQueue
task_enqueue q = record q { queue_head = q.next q.queue_head }

-- task_parallel_queue::putback_tmp_node
pub putback_tmp_node : TaskQueue → TaskQueue
putback_tmp_node q = record q { queue_tmp_head = q.queue_head }

-- task_parallel_queue::get_task; `none` is the wait for a task.
pub get_task : TaskQueue → Option (ℕ × TaskQueue)
get_task q =
    if is_empty q
    then none
    else some (q.next q.queue_tail, record q { queue_tail = q.next q.queue_tail })
