-- ===== src/MemoryPool/Tests.antt =====
-- A pool of three blocks of 8 bytes.
use huron_fs.Prelude.{◌<◌, ◌≡◌, ◌↔◌, refl, true, [], ◌∷◌, arith}
use huron_fs.MemoryPool.{MemoryPool, setup, fresh, allocate, has_memory_left}
use huron_fs.MemoryPool.Accounting.{IsSound, setup-IsSound}
use huron_fs.MemoryPool.Allocation.{has_memory_left_iff}
use huron_fs.MemoryPool.Ownership.{IsOwned, Allocates, allocate-Allocates}

-- Three blocks of 8 bytes, made two at a time.
abbrev blocks_of_8 : MemoryPool
blocks_of_8 = setup fresh 8 3 2

blocks_of_8-IsSound : IsSound 0 2 3 blocks_of_8
blocks_of_8-IsSound = setup-IsSound 8 3 2 (omega arith) (omega arith) (omega arith) (omega arith)

abbrev lent_one : MemoryPool
lent_one = record {
  head = 1 ∷ [];
  available_memory = 8;
  allocated_size = 16;
  block_size = 8;
  step_size = 16;
  total_size = 24;
  made = 2;
}

lent_one-IsSound : IsSound 1 2 3 lent_one
lent_one-IsSound = omega arith

lent_one-IsOwned : IsOwned (0 ∷ []) lent_one
lent_one-IsOwned x = ground arith

allocate-Allocates_example : Allocates (0 ∷ []) 2 3 lent_one (allocate (λ n. true) lent_one)
allocate-Allocates_example =
    allocate-Allocates (λ n. true) (0 ∷ []) 2 3 (λ n. refl) lent_one lent_one-IsSound
      lent_one-IsOwned

has_memory_left_iff_example : (has_memory_left lent_one 8 ≡ true) ↔ (1 < 3)
has_memory_left_iff_example = has_memory_left_iff 1 2 3 lent_one lent_one-IsSound

abbrev no_step : MemoryPool
no_step = record {
  head = [];
  available_memory = 0;
  allocated_size = 0;
  block_size = 8;
  step_size = 0;
  total_size = 24;
  made = 0;
}
