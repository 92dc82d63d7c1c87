-- ===== src/TaskQueue/Fifo.antt =====
-- Any sequence of calls on a task queue: tasks come out in the order in which they went in.
use huron_fs.Prelude.{
  ℕ, ◌≡◌, refl, sym, ap, subst, ◌∙◌, ◌≢◌, ◌↔◌, Option, none, some, List, [], ◌∷◌, ◌++◌,
  append_assoc, append-nil, arith, length, length-append,
}
use huron_fs.TaskQueue.{
  TaskQueue, init, allocate_tmp_node, task_enqueue, putback_tmp_node, get_task,
}
use huron_fs.TaskQueue.Layout.{Absent, Distinct, Absent-append_left, Distinct-middle}
use huron_fs.TaskQueue.View.{View, reserve, reserve_from, enqueue, put_back, take_task}
use huron_fs.TaskQueue.Refine.{
  Shows, Takes, initial, init-Shows, task_enqueue_refines, putback_tmp_node_refines,
  get_task_refines,
}
use huron_fs.TaskQueue.Reserve.{allocate_tmp_node_refines, cut_at_tmp}

-- The states that calls reach from a new queue, with the nodes enqueued and the nodes taken, both
-- oldest first. A thread enqueues only what it has reserved: queue_head is not queue_tmp_head.
pub data Run : List ℕ → List ℕ → TaskQueue → Type 0 where
  start : Run [] [] init
  reserves :
      {put got : List ℕ} {q : TaskQueue} → Run put got q → Run put got (allocate_tmp_node q).1
  enqueues :
      {put got : List ℕ} {q : TaskQueue}
      → q.queue_head ≢ q.queue_tmp_head
      → Run put got q
      → Run (put ++ q.queue_head ∷ []) got (task_enqueue q)
  puts_back : {put got : List ℕ} {q : TaskQueue} → Run put got q → Run put got (putback_tmp_node q)
  takes :
      {put got : List ℕ} {q q' : TaskQueue} (t : ℕ)
      → get_task q ≡ some (t, q')
      → Run put got q
      → Run put (got ++ t ∷ []) q'

abbrev Matches : List ℕ → List ℕ → TaskQueue → Type 0
Matches put got q = (v : View) × Shows q v × (put ≡ got ++ v.queued)

queued-reserve : (v : View) (free : List ℕ) (n : ℕ) → (reserve_from free n v).queued ≡ v.queued
queued-reserve v [] n = refl
queued-reserve v (f ∷ fs) n = refl

reserves_case :
    (put got : List ℕ) (q : TaskQueue) → Matches put got q → Matches put got (allocate_tmp_node q).1
reserves_case put got q (v, s, e) = (
  reserve v q.unused,
  (allocate_tmp_node_refines q v s).1,
  e ∙ ap (λ l. got ++ l) (sym (queued-reserve v v.free q.unused)),
)

queued-put_back :
    (v : View) (rs : List ℕ) → (put_back (record v { reserved = rs })).queued ≡ v.queued
queued-put_back v [] = refl
queued-put_back v (r ∷ rs) = refl

puts_back_case :
    (put got : List ℕ) (q : TaskQueue) → Matches put got q → Matches put got (putback_tmp_node q)
puts_back_case put got q (v, s, e) = (
  put_back v,
  putback_tmp_node_refines q v s,
  e ∙ ap (λ l. got ++ l) (sym (queued-put_back v v.reserved)),
)

enqueues_case :
    (put got : List ℕ) (q : TaskQueue) (v : View) (rs : List ℕ)
    → q.queue_head ≢ q.queue_tmp_head
    → Shows q (record v { reserved = rs })
    → put ≡ got ++ v.queued
    → Matches (put ++ q.queue_head ∷ []) got (task_enqueue q)
enqueues_case put got q v [] ne s e = absurd (ne (s.head ∙ sym s.tmp_head))
enqueues_case put got q v (r ∷ rs) ne s e = (
  enqueue (record v { reserved = r ∷ rs }),
  task_enqueue_refines q (record v { reserved = r ∷ rs }) (λ h. cc) s,
  ap (λ h. put ++ h ∷ []) s.head ∙ ap (λ l. l ++ r ∷ []) e ∙ append_assoc got v.queued (r ∷ []),
)

Takes-case :
    (put got : List ℕ) (q q' : TaskQueue) (t : ℕ) (v : View) (ts : List ℕ)
    → get_task q ≡ some (t, q')
    → Takes (get_task q) (take_task (record v { queued = ts }))
    → put ≡ got ++ ts
    → Matches put (got ++ t ∷ []) q'
Takes-case put got q q' t v [] g s e = elim (subst (λ o. Takes o none) g s) [ ]
Takes-case put got q q' t v (n ∷ ts) g s e =
    let v' : View = record v { busy = n; queued = ts; free = v.free ++ v.busy ∷ [] } in
    let taken : Takes (some (t, q')) (some (n, v')) = subst (λ o. Takes o (some (n, v'))) g s in
    (v', taken.1, e ∙ ap (λ x. got ++ x ∷ ts) (sym taken.0) ∙ sym (append_assoc got (t ∷ []) ts))

Run-Matches : {put got : List ℕ} {q : TaskQueue} → Run put got q → Matches put got q
Run-Matches start = (initial, init-Shows, refl)
Run-Matches (reserves {put} {got} {q} r) = reserves_case put got q (Run-Matches r)
Run-Matches (enqueues {put} {got} {q} ne r) =
    let (v, s, e) = Run-Matches r in enqueues_case put got q v v.reserved ne s e
Run-Matches (puts_back {put} {got} {q} r) = puts_back_case put got q (Run-Matches r)
Run-Matches (takes {put} {got} {q} {q'} t g r) =
    let (v, s, e) = Run-Matches r in
    Takes-case put got q q' t v v.queued g (get_task_refines q v s) e

-- However the calls on a task queue are interleaved, starting from the constructor and
-- enqueuing only reserved nodes, the tasks taken are a prefix of the tasks enqueued, in the
-- same order.
pub Run-fifo :
    {put got : List ℕ} {q : TaskQueue} → Run put got q → (rest : List ℕ) × (put ≡ got ++ rest)
Run-fifo r = let (v, s, e) = Run-Matches r in (v.queued, e)

-- In every state that calls reach, the node that allocate_tmp_node hands out is neither the
-- node being worked on nor one of the tasks that are enqueued and not yet taken.
pub Run-allocate_tmp_node :
    {put got : List ℕ} {q : TaskQueue}
    → Run put got q
    → (rest : List ℕ) × (put ≡ got ++ rest) × Absent (allocate_tmp_node q).0 (q.queue_tail ∷ rest)
Run-allocate_tmp_node {q} r =
    let (v, s, e) = Run-Matches r in
    let apart : Absent v.tmp (v.busy ∷ (v.queued ++ v.reserved)) =
      (Distinct-middle (v.busy ∷ (v.queued ++ v.reserved)) v.tmp v.free (
        subst (λ ns. Distinct (v.busy ∷ ns)) (cut_at_tmp v.queued v.reserved v.tmp v.free)
          s.ring.distinct)).0 in
    (
      v.queued,
      e,
      subst (λ n. Absent n (q.queue_tail ∷ v.queued)) (sym (allocate_tmp_node_refines q v s).0)
          (subst (λ b. Absent v.tmp (b ∷ v.queued)) (sym s.tail)
            (apart.0, Absent-append_left v.tmp v.queued v.reserved apart.1)),
    )

waits_iff :
    (put got : List ℕ) (o : Option (ℕ × TaskQueue)) (v : View) (ts : List ℕ)
    → Takes o (take_task (record v { queued = ts }))
    → put ≡ got ++ ts
    → (o ≡ none) ↔ (put ≡ got)
waits_iff put got none v [] s e = (λ _. e ∙ append-nil got, λ _. refl)
waits_iff put got (some r) v [] s e = absurd s
waits_iff put got none v (n ∷ ts) s e = absurd s
waits_iff put got (some r) v (n ∷ ts) s e =
    (λ h. cc, λ h. absurd (omega (arith, ap length e, ap length h, length-append got (n ∷ ts))))

-- In every state that calls reach, get_task waits if and only if every task enqueued so far
-- has been taken.
pub Run-get_task :
    {put got : List ℕ} {q : TaskQueue} → Run put got q → (get_task q ≡ none) ↔ (put ≡ got)
Run-get_task {put} {got} {q} r =
    let (v, s, e) = Run-Matches r in
    waits_iff put got (get_task q) v v.queued (get_task_refines q v s) e
