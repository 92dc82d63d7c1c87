-- ===== src/MemoryPool/Ownership.antt =====
-- Which elements of a memory pool are with clients: no element is lent twice, or lent and free.
use huron_fs.Prelude.{
  ℕ, zero, suc, ◌+◌, ◌-◌, ◌%◌, ◌≤◌, ◌<◌, ◌≡◌, refl, sym, ap, subst, ◌⊎◌, inl, inr, Bool, true,
  false, List, [], ◌∷◌, arith, length, ltb, leb, ◌==◌, if◌then◌else◌,
}
use huron_fs.MemoryPool.{
  word, MemoryPool, Outcome, returns, bad_alloc, allocate_more_memory, take_head, take_after,
  allocate_from, allocate, grow, grown, allocation_size,
}
use huron_fs.MemoryPool.Accounting.{IsSound, allocate_more_memory-IsSound, mul_mono}
use huron_fs.MemoryPool.Allocation.{allocate_more_memory-full}

-- How often an element stands in a list
abbrev pub times : ℕ → List ℕ → ℕ
times x [] = 0
times x (e ∷ l) = (if x == e then 1 else 0) + times x l

-- Each element that was made stands at most once among the free and the lent ones, and no other one
-- does.
abbrev pub IsOwned : List ℕ → MemoryPool → Type 0
IsOwned lent p = (x : ℕ) → times x p.head + times x lent ≤ (if ltb x p.made then 1 else 0)

module _ (lent : List ℕ) (malloc_ok : ℕ → Bool) where
  -- A new element is none of the old ones.
  make-IsOwned :
      (p : MemoryPool)
      → IsOwned lent p
      → IsOwned lent (record p { head = p.made ∷ p.head; made = p.made + 1 })
  make-IsOwned p h x = ground (arith, h x)

  grow-IsOwned :
      (fuel tmp : ℕ) (p : MemoryPool) → IsOwned lent p → IsOwned lent (grow malloc_ok fuel p tmp).1
  unfolding grow
  grow-IsOwned zero tmp p h = h
  grow-IsOwned (suc fuel) tmp p h = pick (leb p.block_size tmp) (malloc_ok p.made) _ _ _ h (
      grow-IsOwned fuel (tmp - p.block_size)
        (record p { head = p.made ∷ p.head; made = p.made + 1 }) (make-IsOwned p h))
    where
      pick :
          (b c : Bool) (o u : Outcome) (more : Outcome × MemoryPool)
          → IsOwned lent p
          → IsOwned lent more.1
          → IsOwned lent (if b then (if c then more else (o, p)) else (u, p)).1
      pick true true o u more a r = r
      pick true false o u more a r = a
      pick false c o u more a r = a

  grown-IsOwned :
      (size : ℕ) (r : Outcome × MemoryPool)
      → IsOwned lent r.1
      → IsOwned lent (grown malloc_ok size r).1
  unfolding grown
  grown-IsOwned size (returns n, p) h = h
  grown-IsOwned size (bad_alloc, p) h = h
  grown-IsOwned size (Outcome.null_dereference, p) h = h
  grown-IsOwned size (Outcome.endless, p) h = h

  allocate_more_memory-IsOwned :
      (p : MemoryPool) → IsOwned lent p → IsOwned lent (allocate_more_memory malloc_ok p).1
  unfolding allocate_more_memory
  allocate_more_memory-IsOwned p h =
      pick (leb ((p.allocated_size + p.block_size) % word) p.total_size)
        (grown malloc_ok (allocation_size p)
          (grow malloc_ok (suc (allocation_size p)) p (allocation_size p)))
        (grown-IsOwned (allocation_size p)
          (grow malloc_ok (suc (allocation_size p)) p (allocation_size p))
          (grow-IsOwned (suc (allocation_size p)) (allocation_size p) p h))
    where
      pick :
          (b : Bool) (r : Outcome × MemoryPool)
          → IsOwned lent r.1
          → IsOwned lent (if b then r else (bad_alloc, p)).1
      pick true r a = a
      pick false r a = h

-- The result of `allocate` on a sound pool: an element, which is lent from then on, while fewer than
-- `count` are lent, and otherwise std::bad_alloc with the pool unchanged.
abbrev pub Allocates : List ℕ → ℕ → ℕ → MemoryPool → Outcome × MemoryPool → Type 0
Allocates lent step count p r =
    ((length lent < count)
      × ((e : ℕ) × (q : MemoryPool) × (r ≡ (returns e, q))
          × IsSound (length (e ∷ lent)) step count q
          × IsOwned (e ∷ lent) q))
    ⊎ ((length lent ≡ count) × (r ≡ (bad_alloc, p)))

module _ (malloc_ok : ℕ → Bool) (lent : List ℕ) (step count : ℕ) where
  -- The head of the free list is the element given out.
  take_head-Allocates :
      (p : MemoryPool) (xs : List ℕ)
      → xs ≡ p.head
      → 0 < length xs
      → IsSound (length lent) step count p
      → IsOwned lent p
      → (e : ℕ) × (q : MemoryPool) × (take_head malloc_ok p xs ≡ (returns e, q))
        × IsSound (length (e ∷ lent)) step count q
        × IsOwned (e ∷ lent) q
  unfolding take_head
  take_head-Allocates p [] eq pos s o = absurd (omega (arith, pos))
  take_head-Allocates p (e ∷ rest) eq pos s o = (
    e,
    record p { head = rest; available_memory = (p.available_memory + word - p.block_size) % word },
    refl,
    ground (arith, ap length eq, mul_mono p.block_size (suc (length rest)) count),
    λ x. ground (arith, o x, ap (times x) eq),
  )

  module _ (works : (n : ℕ) → malloc_ok n ≡ true) where
    allocate_from-Allocates :
        (room : ℕ) (p : MemoryPool) (xs : List ℕ)
        → xs ≡ p.head
        → length xs + length lent + room ≡ count
        → IsSound (length lent) step count p
        → IsOwned lent p
        → Allocates lent step count p (allocate_from malloc_ok p xs)
    unfolding allocate_from take_after
    allocate_from-Allocates room p (x ∷ xs) eq h s o =
        inl (omega arith, take_head-Allocates p (x ∷ xs) eq (omega arith) s o)
    allocate_from-Allocates zero p [] eq h s o = inr (
      omega arith,
      rw (
        allocate_more_memory-full malloc_ok (length lent) step count p s
            (omega (arith, ap length eq)),
        take_after,
      ),
    )
    allocate_from-Allocates (suc room) p [] eq h s o =
        let (q, run, s', pos) =
          allocate_more_memory-IsSound malloc_ok works (length lent) step count room p s
            (sym (ap length eq)) (omega arith) in
        inl (
          omega arith,
          rw (run, take_after)
              (take_head-Allocates q q.head refl pos s' (
                subst (λ (r : Outcome × MemoryPool). IsOwned lent r.1) run
                  (allocate_more_memory-IsOwned lent malloc_ok p o))),
        )

    -- In a sound pool in which each element made so far stands at most once among the free and the
    -- lent ones, and with a malloc that works, allocate gives out an element while fewer than count
    -- are lent; the pool is then sound with that element among the lent ones, and still each element
    -- stands at most once among the free and the lent ones, so the element given out was with no
    -- client and is free no more. When count are lent, allocate throws std::bad_alloc and changes
    -- nothing.
    pub allocate-Allocates :
        (p : MemoryPool)
        → IsSound (length lent) step count p
        → IsOwned lent p
        → Allocates lent step count p (allocate malloc_ok p)
    unfolding allocate
    allocate-Allocates p s o =
        allocate_from-Allocates (count - (length p.head + length lent)) p p.head refl
          (omega (arith, s.within)) s o
