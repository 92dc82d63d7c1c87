-- ===== src/MemoryPool.antt =====
-- src/Common/include/CBB_memory_pool.h and src/Common/src/CBB_memory_pool.cpp: the pool of
-- equal blocks from which IOnode takes its data blocks and the client its stream buffers.
-- An element is the number of the `malloc` call that made it; the free list is `head`.
pub mod Accounting
pub mod Allocation
pub mod Ownership
mod Tests
use huron_fs.Prelude.{
  ℕ, zero, suc, ◌+◌, ◌-◌, ◌*◌, ◌%◌, ◌^◌, ◌≤◌, Bool, ◌||◌, List, [], ◌∷◌, ltb, leb, if◌then◌else◌,
}

-- `size_t`
abbrev pub word : ℕ
word = 2 ^ 64

pub record MemoryPool : Type 0 where
  pub head : List ℕ
  pub available_memory : ℕ
  pub allocated_size : ℕ
  pub block_size : ℕ
  pub step_size : ℕ
  pub total_size : ℕ
  -- how many elements were made so far
  pub made : ℕ

-- memory_pool::memory_pool()
abbrev pub fresh : MemoryPool
fresh = record {
  head = [];
  available_memory = 0;
  allocated_size = 0;
  block_size = 0;
  step_size = 0;
  total_size = 0;
  made = 0;
}

-- memory_pool::setup; the counts are nonnegative.
pub setup : MemoryPool → ℕ → ℕ → ℕ → MemoryPool
setup p size_of_elem total_count pre_alloc_count =
    let pre : ℕ = if ltb total_count pre_alloc_count then total_count else pre_alloc_count in
    record p {
      available_memory = 0;
      total_size = (size_of_elem * total_count) % word;
      block_size = size_of_elem;
      step_size = (pre * size_of_elem) % word;
    }

-- The ways a call ends: by its value, by std::bad_alloc, by reading through a null pointer, or
-- never.
pub data Outcome : Type 0 where
  returns : ℕ → Outcome
  bad_alloc null_dereference endless : Outcome

-- MIN(total_size-allocated_size, step_size)
pub allocation_size : MemoryPool → ℕ
allocation_size p =
    let left : ℕ = (p.total_size + word - p.allocated_size) % word in
    if ltb p.step_size left then p.step_size else left

-- `malloc_ok n` says whether the n-th `malloc` succeeds.
module _ (malloc_ok : ℕ → Bool) where
  -- The loop of allocate_more_memory; it returns the bytes left over.
  pub grow : ℕ → MemoryPool → ℕ → Outcome × MemoryPool
  grow zero p tmp = (endless, p)
  grow (suc fuel) p tmp =
      let more : Outcome × MemoryPool =
        grow fuel (record p { head = p.made ∷ p.head; made = p.made + 1 }) (tmp - p.block_size) in
      if leb p.block_size tmp
      then (if malloc_ok p.made then more else (bad_alloc, p))
      else (returns tmp, p)

  -- The counters move only when the loop has ended normally.
  pub grown : ℕ → Outcome × MemoryPool → Outcome × MemoryPool
  grown size (returns _, p) = (
    returns size,
    record p {
      available_memory = (p.available_memory + size) % word;
      allocated_size = (p.allocated_size + size) % word;
    },
  )
  grown size (e, p) = (e, p)

  -- memory_pool::allocate_more_memory
  pub allocate_more_memory : MemoryPool → Outcome × MemoryPool
  allocate_more_memory p =
      if leb ((p.allocated_size + p.block_size) % word) p.total_size
      then grown (allocation_size p) (grow (suc (allocation_size p)) p (allocation_size p))
      else (bad_alloc, p)

  pub take_head : MemoryPool → List ℕ → Outcome × MemoryPool
  take_head p [] = (null_dereference, p)
  take_head p (e ∷ rest) = (
    returns e,
    record p { head = rest; available_memory = (p.available_memory + word - p.block_size) % word },
  )

  pub take_after : Outcome × MemoryPool → Outcome × MemoryPool
  take_after (returns _, p) = take_head p p.head
  take_after (e, p) = (e, p)

  pub allocate_from : MemoryPool → List ℕ → Outcome × MemoryPool
  allocate_from p [] = take_after (allocate_more_memory p)
  allocate_from p (e ∷ rest) = take_head p (e ∷ rest)

  -- memory_pool::allocate
  pub allocate : MemoryPool → Outcome × MemoryPool
  allocate p = allocate_from p p.head

-- memory_pool::free
pub free : MemoryPool → ℕ → MemoryPool
free p e = record p {
  head = e ∷ p.head;
  available_memory = (p.available_memory + p.block_size) % word;
}

-- memory_pool::has_memory_left
pub has_memory_left : MemoryPool → ℕ → Bool
has_memory_left p size =
    leb size p.available_memory || leb ((p.allocated_size + p.block_size) % word) p.total_size
