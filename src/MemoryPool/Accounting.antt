-- ===== src/MemoryPool/Accounting.antt =====
-- What the counters of a memory pool say about its elements.
use huron_fs.Prelude.{
  ℕ, zero, suc, ◌+◌, ◌-◌, ◌*◌, ◌%◌, ◌≤◌, ◌<◌, ◌≡◌, refl, ap, Bool, true, List, [], ◌∷◌, arith,
  length, ltb, leb, if◌then◌else◌,
}
use huron_fs.MemoryPool.{
  word, MemoryPool, returns, setup, fresh, grow, grown, allocate_more_memory, allocation_size,
  take_head, free,
}

-- `lent` elements are with clients, `count` may be made in all, `step` at a time.
pub record IsSound (lent step count : ℕ) (p : MemoryPool) : Type 0 where
  pub block_pos : 0 < p.block_size
  pub step_pos : 0 < step
  pub step_in : step ≤ count
  pub total : p.total_size ≡ count * p.block_size
  pub step_bytes : p.step_size ≡ step * p.block_size
  pub small : p.total_size + p.block_size < word
  pub available : p.available_memory ≡ length p.head * p.block_size
  pub allocated : p.allocated_size ≡ (length p.head + lent) * p.block_size
  pub within : length p.head + lent ≤ count

pub mul_mono : (c a b : ℕ) → a ≤ b → a * c ≤ b * c
mul_mono c a b h = grind arith

mul_succ_sub : (k b : ℕ) → suc k * b - b ≡ k * b
mul_succ_sub k b = omega arith

pub mul_cancel : (c a b : ℕ) → 0 < c → a * c + c ≤ b * c → a < b
mul_cancel c a b p h = grind arith

-- The room that is left, in blocks.
abbrev portion : ℕ → ℕ → ℕ
portion step room = if ltb step room then step else room

portion_mul : (c a b : ℕ) → 0 < c → (if ltb (a * c) (b * c) then a * c else b * c) ≡ portion a b * c
portion_mul c a b p = ground (arith, mul_mono c (suc a) b, mul_mono c b a)

portion_bounds : (a b : ℕ) → 0 < a → (0 < portion a (suc b)) × (portion a (suc b) ≤ suc b)
portion_bounds a b p = ground arith

le-mul : (k c : ℕ) → 0 < c → k ≤ k * c
le-mul k c p = grind arith

-- A pool that is set up with a positive block size, count and step is sound, if its total
-- fits a size_t with one block to spare.
pub setup-IsSound :
    (size count pre : ℕ)
    → 0 < size
    → 0 < count
    → 0 < pre
    → count * size + size < word
    → IsSound 0 (if ltb count pre then count else pre) count (setup fresh size count pre)
unfolding setup
setup-IsSound size count pre s c p h = ground (arith, mul_mono size pre count)

-- A returned element goes back into the accounts of a sound pool.
pub free-IsSound :
    (lent step count : ℕ) (p : MemoryPool) (e : ℕ)
    → IsSound (suc lent) step count p
    → IsSound lent step count (free p e)
unfolding free
free-IsSound lent step count p e s =
    ground (arith, mul_mono p.block_size (suc (length p.head)) count)

-- What the loop changes: `k` new elements, and no counter.
record Grown (k : ℕ) (p q : MemoryPool) : Type 0 where
  elements : length q.head ≡ length p.head + k
  available : q.available_memory ≡ p.available_memory
  allocated : q.allocated_size ≡ p.allocated_size
  block : q.block_size ≡ p.block_size
  step : q.step_size ≡ p.step_size
  total : q.total_size ≡ p.total_size

Grown-suc :
    (k : ℕ) (p q : MemoryPool)
    → Grown k (record p { head = p.made ∷ p.head; made = p.made + 1 }) q
    → Grown (suc k) p q
Grown-suc k p q g = omega (arith, g)

-- After the loop the counters are moved by the bytes of the new elements.
Grown-IsSound :
    (lent step count k : ℕ) (p q : MemoryPool)
    → IsSound lent step count p
    → Grown k p q
    → length p.head + lent + k ≤ count
    → IsSound lent step count (record q {
      available_memory = (q.available_memory + k * p.block_size) % word;
      allocated_size = (q.allocated_size + k * p.block_size) % word;
    })
Grown-IsSound lent step count k p q s g h =
    rw (g.block, g.available, g.allocated)
      (omega (
        arith,
        s,
        g,
        ap (λ (t : ℕ). t * p.block_size) g.elements,
        mul_mono p.block_size (length p.head + lent + k) count h,
      ))

pub take_head-IsSound :
    (malloc_ok : ℕ → Bool) (lent step count : ℕ) (p : MemoryPool) (xs : List ℕ)
    → xs ≡ p.head
    → 0 < length xs
    → IsSound lent step count p
    → (e : ℕ) × (q : MemoryPool) × (take_head malloc_ok p xs ≡ (returns e, q))
      × IsSound (suc lent) step count q
unfolding take_head
take_head-IsSound malloc_ok lent step count p [] eq h s = absurd (omega arith)
take_head-IsSound malloc_ok lent step count p (e ∷ rest) eq h s = (
  e,
  record p { head = rest; available_memory = (p.available_memory + word - p.block_size) % word },
  refl,
  ground (arith, ap length eq, mul_mono p.block_size (suc (length rest)) count),
)

-- The bytes that a sound pool with no free element asks for next.
module _ (lent step count room : ℕ) (p : MemoryPool) (s : IsSound lent step count p)
    (e : length p.head ≡ 0) (h : lent + suc room ≡ count) where
  has_room : leb ((p.allocated_size + p.block_size) % word) p.total_size ≡ true
  has_room = ground (
    arith,
    ap (λ (t : ℕ). t * p.block_size) e,
    ap (λ (t : ℕ). t * p.block_size) h,
    s.allocated,
    s.total,
    s.small,
  )

  bytes_left : (p.total_size + word - p.allocated_size) % word ≡ suc room * p.block_size
  bytes_left =
      omega (arith, s, ap (λ (t : ℕ). t * p.block_size) e, ap (λ (t : ℕ). t * p.block_size) h)

  next_bytes : allocation_size p ≡ portion step (suc room) * p.block_size
  unfolding allocation_size
  next_bytes = rw (bytes_left, s.step_bytes) (portion_mul p.block_size step (suc room) s.block_pos)

module _ (malloc_ok : ℕ → Bool) (works : (n : ℕ) → malloc_ok n ≡ true) where
  -- Out of `k` blocks of bytes the loop makes exactly `k` elements.
  grow_lem :
      (fuel k : ℕ) (p : MemoryPool)
      → 0 < p.block_size
      → k < fuel
      → (q : MemoryPool) × (grow malloc_ok fuel p (k * p.block_size) ≡ (returns 0, q)) × Grown k p q
  unfolding grow
  grow_lem zero k p pos h = absurd (omega arith)
  grow_lem (suc fuel) zero p pos h = (p, ground arith, omega arith)
  grow_lem (suc fuel) (suc k) p pos h =
      let p' : MemoryPool = record p { head = p.made ∷ p.head; made = p.made + 1 } in
      let (q, e, g) = grow_lem fuel k p' pos (omega arith) in
      (q, ground (arith, works p.made, e, mul_succ_sub k p.block_size), Grown-suc k p q g)

  -- While fewer than `count` elements are lent an empty pool gets new ones.
  pub allocate_more_memory-IsSound :
      (lent step count room : ℕ) (p : MemoryPool)
      → IsSound lent step count p
      → length p.head ≡ 0
      → lent + suc room ≡ count
      → (q : MemoryPool) × (allocate_more_memory malloc_ok p
          ≡ (returns (portion step (suc room) * p.block_size), q))
        × IsSound lent step count q
        × (0 < length q.head)
  unfolding allocate_more_memory grown
  allocate_more_memory-IsSound lent step count room p s e h =
      let k : ℕ = portion step (suc room) in
      let b : (0 < k) × (k ≤ suc room) = portion_bounds step room s.step_pos in
      let (q, run, g) =
        grow_lem (suc (k * p.block_size)) k p s.block_pos
          (omega (arith, le-mul k p.block_size s.block_pos)) in
      (
        _,
        rw
            (
              has_room lent step count room p s e h,
              next_bytes lent step count room p s e h,
              run,
              grown,
            )
            (rw (next_bytes lent step count room p s e h)),
        Grown-IsSound lent step count k p q s g (omega (arith, b)),
        omega (arith, g.elements, b),
      )
