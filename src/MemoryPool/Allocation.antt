-- ===== src/MemoryPool/Allocation.antt =====
-- memory_pool::free, has_memory_left and the failures of memory_pool::allocate.
use huron_fs.Prelude.{
  ℕ, suc, ◌+◌, ◌*◌, ◌%◌, ◌≤◌, ◌<◌, ◌≡◌, ap, ◌↔◌, Bool, true, false, [], arith, length, leb,
}
use huron_fs.MemoryPool.{
  word, MemoryPool, returns, bad_alloc, null_dereference, allocate_more_memory, take_head,
  take_after, allocate_from, allocate, free, has_memory_left, grow, grown, allocation_size,
}
use huron_fs.MemoryPool.Accounting.{IsSound, mul_mono, mul_cancel}

full_test :
    (lent step count : ℕ) (p : MemoryPool)
    → IsSound lent step count p
    → length p.head + lent ≡ count
    → leb ((p.allocated_size + p.block_size) % word) p.total_size ≡ false
full_test lent step count p s e =
    ground (arith, s.allocated, s.total, s.small, s.block_pos, ap (λ (t : ℕ). t * p.block_size) e)

pub allocate_more_memory-full :
    (malloc_ok : ℕ → Bool) (lent step count : ℕ) (p : MemoryPool)
    → IsSound lent step count p
    → length p.head + lent ≡ count
    → allocate_more_memory malloc_ok p ≡ (bad_alloc, p)
unfolding allocate_more_memory
allocate_more_memory-full malloc_ok lent step count p s e = rw (full_test lent step count p s e)

-- In a sound pool with an element lent, an element that is given back is the next one given
-- out, and the pool is as before.
pub allocate-free :
    (malloc_ok : ℕ → Bool) (lent step count : ℕ) (p : MemoryPool) (e : ℕ)
    → IsSound (suc lent) step count p
    → allocate malloc_ok (free p e) ≡ (returns e, p)
unfolding allocate allocate_from take_head free
allocate-free malloc_ok lent step count p e s =
    ground
      (arith, s.available, s.total, s.small, s.within, mul_mono p.block_size (length p.head) count)

-- In a sound pool, has_memory_left for one block holds if and only if fewer than count
-- elements are lent.
pub has_memory_left_iff :
    (lent step count : ℕ) (p : MemoryPool)
    → IsSound lent step count p
    → (has_memory_left p p.block_size ≡ true) ↔ (lent < count)
unfolding has_memory_left
has_memory_left_iff lent step count p s = (
  λ h. ground (
    arith,
    s.available,
    s.allocated,
    s.total,
    s.within,
    s.small,
    s.block_pos,
    mul_cancel p.block_size (length p.head + lent) count s.block_pos,
    mul_mono p.block_size (length p.head) 0,
    mul_mono p.block_size (length p.head + lent) count,
  ),
  λ h. ground (
    arith,
    s.available,
    s.allocated,
    s.total,
    s.within,
    s.small,
    s.block_pos,
    mul_mono p.block_size 1 (length p.head),
    mul_mono p.block_size (length p.head + lent + 1) count,
    mul_mono p.block_size (length p.head + lent) count,
  ),
)

-- In an empty pool with a step of 0 bytes, a positive block size and room for one more block
-- in a total below 2 ^ 64, allocate reads through a null pointer.
pub allocate-no_step :
    (malloc_ok : ℕ → Bool) (p : MemoryPool)
    → p.head ≡ []
    → p.step_size ≡ 0
    → 0 < p.block_size
    → p.allocated_size + p.block_size ≤ p.total_size
    → p.total_size < word
    → (allocate malloc_ok p).0 ≡ null_dereference
unfolding allocate allocate_from take_after allocate_more_memory allocation_size grow grown
    take_head
allocate-no_step malloc_ok p e z pos room small = ground arith
