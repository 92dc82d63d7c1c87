-- ===== src/TaskQueue/Reserve.antt =====
-- allocate_tmp_node implements `reserve`, by a free node or by a new one.
use huron_fs.Prelude.{
  ℕ, suc, ◌+◌, ◌≡◌, refl, sym, ap, subst, ◌≢◌, ◌∙◌, true, false, List, [], ◌∷◌, ◌++◌, arith,
  length-append, ◌==◌, append_assoc,
}
use huron_fs.TaskQueue.{TaskQueue, set_next, allocate_tmp_node}
use huron_fs.TaskQueue.Layout.{
  Links, Absent, Distinct, Below, Below-mono, Below-Absent, Below-append, Absent-append_left,
  Absent-append_right, Distinct-snoc, Links-append, Links-split_left, Links-split_right,
  Links-set_next, Distinct-middle,
}
use huron_fs.TaskQueue.View.{View, nodes, first, reserve}
use huron_fs.TaskQueue.Refine.{IsRing, Shows}

first-snoc : (rs : List ℕ) (tmp f : ℕ) → first (rs ++ tmp ∷ []) f ≡ first rs tmp
first-snoc [] tmp f = refl
first-snoc (r ∷ rs) tmp f = refl

set_next-same : (next : ℕ → ℕ) (a t : ℕ) → set_next next a t a ≡ t
unfolding set_next
set_next-same next a t = ground arith

set_next-other : (next : ℕ → ℕ) (a t b : ℕ) → b ≢ a → set_next next a t b ≡ next b
unfolding set_next
set_next-other next a t b h = ground arith

-- A new node is linked in behind the last one.
IsRing-extend :
    (next : ℕ → ℕ) (unused size busy : ℕ) (pre : List ℕ) (tmp : ℕ)
    → IsRing next unused size busy (pre ++ tmp ∷ [])
    → IsRing
        (set_next (set_next next unused (next tmp)) tmp unused)
        (suc unused)
        (size + 1)
        busy
        (pre ++ tmp ∷ unused ∷ [])
IsRing-extend next unused size busy pre tmp s = record {
  links =
      Links-append _ busy pre tmp (unused ∷ []) busy
        (Links-set_next _ tmp unused busy pre tmp tmp_absent (
          Links-set_next next unused (next tmp) busy pre tmp unused_absent
            (Links-split_left next busy pre tmp [] busy s.links)))
        (
          set_next-same _ tmp unused,
          set_next-other _ tmp unused unused fresh.0
              ∙ set_next-same next unused (next tmp)
              ∙ Links-split_right next busy pre tmp [] busy s.links,
        );
  distinct =
      subst (λ ns. Distinct (busy ∷ ns)) snoc
        (Distinct-snoc unused (busy ∷ (pre ++ tmp ∷ [])) all_absent s.distinct);
  below =
      subst (λ ns. Below (suc unused) (busy ∷ ns)) snoc
        (Below-append (suc unused) (busy ∷ (pre ++ tmp ∷ [])) (unused ∷ [])
          (Below-mono unused (busy ∷ (pre ++ tmp ∷ [])) s.below) (omega arith));
  count =
      omega (arith, s.count, length-append pre (tmp ∷ []), length-append pre (tmp ∷ unused ∷ []));
}
  where
    all_absent : Absent unused (busy ∷ (pre ++ tmp ∷ []))
    all_absent = Below-Absent unused (busy ∷ (pre ++ tmp ∷ [])) s.below

    fresh : Absent unused (tmp ∷ [])
    fresh = Absent-append_right unused pre (tmp ∷ []) all_absent.1

    tmp_absent : Absent tmp (busy ∷ pre)
    tmp_absent = (Distinct-middle (busy ∷ pre) tmp [] s.distinct).0

    unused_absent : Absent unused (busy ∷ pre)
    unused_absent = Absent-append_left unused (busy ∷ pre) (tmp ∷ []) all_absent

    snoc : (pre ++ tmp ∷ []) ++ unused ∷ [] ≡ pre ++ tmp ∷ unused ∷ []
    snoc = append_assoc pre (tmp ∷ []) (unused ∷ [])

-- The nodes of a view, cut at the next node to reserve.
pub cut_at_tmp :
    (queued reserved : List ℕ) (tmp : ℕ) (free : List ℕ)
    → queued ++ (reserved ++ (tmp ∷ free)) ≡ (queued ++ reserved) ++ tmp ∷ free
cut_at_tmp queued reserved tmp free = sym (append_assoc queued reserved (tmp ∷ free))

-- What the test of allocate_tmp_node sees: no node is free, or one is.
at_tmp :
    (q : TaskQueue) (v : View)
    → Shows q v
    → Links q.next v.tmp v.free v.busy × Absent v.busy (v.tmp ∷ v.free)
at_tmp q v s = (
  Links-split_right q.next v.busy (v.queued ++ v.reserved) v.tmp v.free v.busy
      (subst (λ ns. Links q.next v.busy ns v.busy) cut s.ring.links),
  Absent-append_right v.busy (v.queued ++ v.reserved) (v.tmp ∷ v.free)
      (subst (Absent v.busy) cut s.ring.distinct.0),
)
  where
    cut : nodes v ≡ (v.queued ++ v.reserved) ++ v.tmp ∷ v.free
    cut = cut_at_tmp v.queued v.reserved v.tmp v.free

is_last :
    (q : TaskQueue) (v : View)
    → Shows q (record v { free = [] })
    → (q.queue_tail == q.next q.queue_tmp_head) ≡ true
is_last q v s =
    ground (arith, s.tail, ap q.next s.tmp_head, (at_tmp q (record v { free = [] }) s).0)

not_last :
    (q : TaskQueue) (v : View) (f : ℕ) (fs : List ℕ)
    → Shows q (record v { free = f ∷ fs })
    → ((q.queue_tail == q.next q.queue_tmp_head) ≡ false) × (q.next q.queue_tmp_head ≡ f)
not_last q v f fs s =
    let (links, apart) = at_tmp q (record v { free = f ∷ fs }) s in
    ground (arith, s.tail, ap q.next s.tmp_head, links.0, apart.1.0)

-- The reserved node joins those before it.
reserved_last :
    (v : View) (f : ℕ) (fs : List ℕ)
    → (v.queued ++ v.reserved) ++ v.tmp ∷ f ∷ fs
      ≡ v.queued ++ ((v.reserved ++ v.tmp ∷ []) ++ f ∷ fs)
reserved_last v f fs =
    append_assoc v.queued v.reserved (v.tmp ∷ f ∷ fs)
    ∙ ap (λ l. v.queued ++ l) (sym (append_assoc v.reserved (v.tmp ∷ []) (f ∷ fs)))

reserve_case :
    (q : TaskQueue) (v : View) (free : List ℕ)
    → Shows q (record v { free = free })
    → ((allocate_tmp_node q).0 ≡ v.tmp)
      × Shows (allocate_tmp_node q).1 (reserve (record v { free = free }) q.unused)
unfolding allocate_tmp_node
reserve_case q v [] s = rw (is_last q v s) (
  s.tmp_head,
  record {
    tail = s.tail;
    head = s.head ∙ sym (first-snoc v.reserved v.tmp q.unused);
    tmp_head = refl;
    ring = rw s.tmp_head (
        subst (IsRing _ _ _ v.busy) (reserved_last v q.unused []) (
          IsRing-extend q.next q.unused q.length_of_queue v.busy (v.queued ++ v.reserved) v.tmp (
            subst (IsRing q.next q.unused q.length_of_queue v.busy)
              (cut_at_tmp v.queued v.reserved v.tmp []) s.ring)));
  },
)
reserve_case q v (f ∷ fs) s = rw (not_last q v f fs s).0 (
  s.tmp_head,
  record {
    tail = s.tail;
    head = s.head ∙ sym (first-snoc v.reserved v.tmp f);
    tmp_head = (not_last q v f fs s).1;
    ring =
        subst (IsRing q.next q.unused q.length_of_queue v.busy)
          (cut_at_tmp v.queued v.reserved v.tmp (f ∷ fs) ∙ reserved_last v f fs) s.ring;
  },
)

-- On a ring that shows a view, allocate_tmp_node hands out the view's node to reserve, and the
-- new ring shows the view in which that node is reserved and the next one is a free node, or a
-- new one if none is free.
pub allocate_tmp_node_refines :
    (q : TaskQueue) (v : View)
    → Shows q v
    → ((allocate_tmp_node q).0 ≡ v.tmp) × Shows (allocate_tmp_node q).1 (reserve v q.unused)
allocate_tmp_node_refines q v = reserve_case q v v.free
