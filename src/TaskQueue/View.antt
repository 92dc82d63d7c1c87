-- ===== src/TaskQueue/View.antt =====
-- What a task queue promises, with no links: the node being worked on, the queued tasks oldest
-- first, the reserved nodes that are being filled, the next node to reserve and the free nodes.
use huron_fs.Prelude.{ℕ, Option, none, some, List, [], ◌∷◌, ◌++◌}

pub record View : Type 0 where
  pub busy : ℕ
  pub queued : List ℕ
  pub reserved : List ℕ
  pub tmp : ℕ
  pub free : List ℕ

-- The nodes after `busy`, in the order of the ring.
abbrev pub nodes : View → List ℕ
nodes v = v.queued ++ (v.reserved ++ (v.tmp ∷ v.free))

-- The first node that is not queued.
abbrev pub first : List ℕ → ℕ → ℕ
first [] tmp = tmp
first (r ∷ rs) tmp = r

-- The next node to reserve: a free one, or a new one at the address given.
abbrev pub reserve_from : List ℕ → ℕ → View → View
reserve_from [] unused v = record v { reserved = v.reserved ++ v.tmp ∷ []; tmp = unused }
reserve_from (f ∷ fs) unused v = record v {
  reserved = v.reserved ++ v.tmp ∷ [];
  tmp = f;
  free = fs;
}

abbrev pub reserve : View → ℕ → View
reserve v unused = reserve_from v.free unused v

abbrev pub enqueue_from : List ℕ → View → View
enqueue_from [] v = v
enqueue_from (r ∷ rs) v = record v { queued = v.queued ++ r ∷ []; reserved = rs }

-- The oldest reserved node becomes the newest task.
abbrev pub enqueue : View → View
enqueue v = enqueue_from v.reserved v

abbrev pub put_back_from : List ℕ → View → View
put_back_from [] v = v
put_back_from (r ∷ rs) v = record v { reserved = []; tmp = r; free = rs ++ v.tmp ∷ v.free }

-- All reserved nodes are free again.
abbrev pub put_back : View → View
put_back v = put_back_from v.reserved v

abbrev pub take_from : List ℕ → View → Option (ℕ × View)
take_from [] v = none
take_from (t ∷ ts) v = some (t, record v { busy = t; queued = ts; free = v.free ++ v.busy ∷ [] })

-- The oldest task is worked on, and the node worked on before is free.
abbrev pub take_task : View → Option (ℕ × View)
take_task v = take_from v.queued v
