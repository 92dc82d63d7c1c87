-- ===== src/TaskQueue/Refine.antt =====
-- The pointer operations of a task queue implement those of its view.
use huron_fs.Prelude.{
  ℕ, suc, ◌≡◌, refl, sym, ap, subst, ◌≢◌, ◌∙◌, true, false, Option, none, some, List, [], ◌∷◌, ◌++◌,
  arith, length, length-append, append_assoc,
}
use huron_fs.TaskQueue.{
  TaskQueue, set_next, init, is_empty, task_enqueue, putback_tmp_node, get_task,
}
use huron_fs.TaskQueue.Layout.{
  Links, Absent, Distinct, Below, ne_sym, Below-append, Absent-append, Absent-append_right,
  Distinct-snoc, Links-append, Links-split_right,
}
use huron_fs.TaskQueue.View.{View, nodes, first, enqueue, put_back, take_task}

-- The links go once round, from `busy` through the nodes; all are distinct and allocated.
pub record IsRing (next : ℕ → ℕ) (unused size busy : ℕ) (ns : List ℕ) : Type 0 where
  pub links : Links next busy ns busy
  pub distinct : Distinct (busy ∷ ns)
  pub below : Below unused (busy ∷ ns)
  pub count : size ≡ suc (length ns)

-- The ring of `q` is the nodes of `v`, each once, and the pointers stand where `v` says.
pub record Shows (q : TaskQueue) (v : View) : Type 0 where
  pub tail : q.queue_tail ≡ v.busy
  pub head : q.queue_head ≡ first v.reserved v.tmp
  pub tmp_head : q.queue_tmp_head ≡ v.tmp
  pub ring : IsRing q.next q.unused q.length_of_queue v.busy (nodes v)

abbrev pub initial : View
initial = record { busy = 0; queued = []; reserved = []; tmp = 1; free = [] }

-- The queue that the constructor builds is empty, with one node to reserve.
pub init-Shows : Shows init initial
unfolding init set_next
init-Shows = record {
  tail = refl;
  head = refl;
  tmp_head = refl;
  ring = record { links = (refl, refl); distinct = omega arith; below = omega arith; count = refl };
}

Links-first :
    (next : ℕ → ℕ) (a : ℕ) (rs : List ℕ) (tmp : ℕ) (free : List ℕ) (b : ℕ)
    → Links next a (rs ++ (tmp ∷ free)) b
    → next a ≡ first rs tmp
Links-first next a [] tmp free b l = l.0
Links-first next a (r ∷ rs) tmp free b l = l.0

enqueue_case :
    (q : TaskQueue) (v : View) (rs : List ℕ)
    → rs ≢ []
    → Shows q (record v { reserved = rs })
    → Shows (task_enqueue q) (enqueue (record v { reserved = rs }))
unfolding task_enqueue
enqueue_case q v [] ne s = absurd (ne refl)
enqueue_case q v (r ∷ rs) ne s = record {
  tail = s.tail;
  head =
      ap q.next s.head
      ∙ Links-first q.next r rs v.tmp v.free v.busy
          (Links-split_right q.next v.busy v.queued r (rs ++ (v.tmp ∷ v.free)) v.busy s.ring.links);
  tmp_head = s.tmp_head;
  ring =
      subst (IsRing q.next q.unused q.length_of_queue v.busy)
        (sym (append_assoc v.queued (r ∷ []) (rs ++ (v.tmp ∷ v.free)))) s.ring;
}

-- On a ring that shows a view with some node reserved, task_enqueue yields a ring that shows
-- the view in which the oldest reserved node is the newest task.
pub task_enqueue_refines :
    (q : TaskQueue) (v : View) → v.reserved ≢ [] → Shows q v → Shows (task_enqueue q) (enqueue v)
task_enqueue_refines q v = enqueue_case q v v.reserved

put_back_case :
    (q : TaskQueue) (v : View) (rs : List ℕ)
    → Shows q (record v { reserved = rs })
    → Shows (putback_tmp_node q) (put_back (record v { reserved = rs }))
unfolding putback_tmp_node
put_back_case q v [] s = record { tail = s.tail; head = s.head; tmp_head = s.head; ring = s.ring }
put_back_case q v (r ∷ rs) s = record {
  tail = s.tail;
  head = s.head;
  tmp_head = s.head;
  ring = s.ring;
}

-- On a ring that shows a view, putback_tmp_node yields a ring that shows the view in which
-- every reserved node is free again.
pub putback_tmp_node_refines :
    (q : TaskQueue) (v : View) → Shows q v → Shows (putback_tmp_node q) (put_back v)
putback_tmp_node_refines q v = put_back_case q v v.reserved

Absent-first :
    (a : ℕ) (rs : List ℕ) (tmp : ℕ) (free : List ℕ)
    → Absent a (rs ++ (tmp ∷ free))
    → a ≢ first rs tmp
Absent-first a [] tmp free n = n.0
Absent-first a (r ∷ rs) tmp free n = n.0

-- One step round the ring: the node left behind comes last.
IsRing-rotate :
    (next : ℕ → ℕ) (unused size busy t : ℕ) (ns : List ℕ)
    → IsRing next unused size busy (t ∷ ns)
    → IsRing next unused size t (ns ++ busy ∷ [])
IsRing-rotate next unused size busy t ns s = record {
  links = Links-append next t ns busy [] t s.links.1 s.links.0;
  distinct = (
    Absent-append t ns (busy ∷ []) s.distinct.1.0 (ne_sym busy t s.distinct.0.0, tt),
    Distinct-snoc busy ns s.distinct.0.1 s.distinct.1.1,
  );
  below = (s.below.1.0, Below-append unused ns (busy ∷ []) s.below.1.1 (s.below.0, tt));
  count = omega (arith, s.count, length-append ns (busy ∷ []));
}

-- What get_task does, beside the view's own `take_task`.
abbrev pub Takes : Option (ℕ × TaskQueue) → Option (ℕ × View) → Type 0
Takes none none = Unit
Takes (some (t, q)) (some (n, v)) = (t ≡ n) × Shows q v
Takes _ _ = ⊥

is_empty-true : (q : TaskQueue) → q.next q.queue_tail ≡ q.queue_head → is_empty q ≡ true
unfolding is_empty
is_empty-true q e = ground arith

is_empty-false : (q : TaskQueue) → q.next q.queue_tail ≢ q.queue_head → is_empty q ≡ false
unfolding is_empty
is_empty-false q e = ground arith

take_case :
    (q : TaskQueue) (v : View) (ts : List ℕ)
    → Shows q (record v { queued = ts })
    → Takes (get_task q) (take_task (record v { queued = ts }))
unfolding get_task
take_case q v [] s =
    let at_tail = ap q.next s.tail in
    rw
      (is_empty-true q (
        omega (
          arith,
          at_tail,
          Links-first q.next v.busy v.reserved v.tmp v.free v.busy s.ring.links,
          s.head,
        )))
      tt
take_case q v (t ∷ ts) s =
    let at_tail = ap q.next s.tail in
    let apart =
      Absent-first t v.reserved v.tmp v.free
        (Absent-append_right t ts (v.reserved ++ (v.tmp ∷ v.free)) s.ring.distinct.1.0) in
    rw (is_empty-false q (omega (arith, at_tail, s.ring.links.0, s.head, apart))) (
      at_tail ∙ s.ring.links.0,
      record {
        tail = at_tail ∙ s.ring.links.0;
        head = s.head;
        tmp_head = s.tmp_head;
        ring =
            subst (IsRing q.next q.unused q.length_of_queue t)
              (append_assoc ts (v.reserved ++ (v.tmp ∷ v.free)) (v.busy ∷ [])
                ∙ ap (λ l. ts ++ l) (append_assoc v.reserved (v.tmp ∷ v.free) (v.busy ∷ [])))
              (IsRing-rotate q.next q.unused q.length_of_queue v.busy t
                (ts ++ (v.reserved ++ (v.tmp ∷ v.free))) s.ring);
      },
    )

-- On a ring that shows a view, get_task waits if the view has no task queued; otherwise it
-- hands out the oldest one and the new ring shows the view after taking it.
pub get_task_refines : (q : TaskQueue) (v : View) → Shows q v → Takes (get_task q) (take_task v)
get_task_refines q v = take_case q v v.queued
