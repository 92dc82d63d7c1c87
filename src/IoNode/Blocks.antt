-- ===== src/IoNode/Blocks.antt =====
-- The blocks of an IOnode and their memory: block of src/IOnode/src/IOnode_basic.cpp.
use huron_fs.Prelude.{ℕ, Bool, true, false, not, ◌||◌, Option, none, some, if◌then◌else◌}
use huron_fs.Prelude.Map.{ℕ_key, ℤ_key, erase}
use huron_fs.Block.{block_bytes}
use huron_fs.MemoryPool
use huron_fs.MemoryPool.{MemoryPool, allocate, free}
use huron_fs.Exec.{Exception, Outcome, returns, throws, undefined, ◌>>=◌, ◌>>◌, pure, modify}
use huron_fs.Swap.{erase_page}
use huron_fs.IoNode.{IoNode, System, M, Block, BlockId, Postponed}
use huron_fs.IoNode.Access.{read_block, put_block, read_file, put_file}

-- block::block. Every caller passes INVALID, so that no memory is allocated.
abbrev pub new_block : ℕ → ℕ → Bool → ℕ → Block
new_block start_point data_size dirty exist_flag = record {
  start_point = start_point;
  data_size = data_size;
  elem = none;
  dirty = dirty;
  valid = false;
  swapped_out = false;
  writing_back = false;
  receiving_data = false;
  exist_flag = exist_flag;
  postponed = Postponed.nothing;
  writeback_page = none;
}

-- block::need_allocation
abbrev pub need_allocation : Block → Bool
need_allocation b = not b.valid || elim b.elem [ none ↦ true | some _ ↦ false ]

module _ {Disk : Type 0} where
  abbrev pub free_elem : ℕ → M Disk (Unit {0})
  free_elem e = modify λ s. record s { pool = free s.pool e }

  -- memory_allocator.free(_elem), where there is one
  abbrev pub release : Option ℕ → M Disk (Unit {0})
  release none = pure tt
  release (some e) = free_elem e

  module _ (os : System Disk) where
    -- How a call of the pool ends here
    unfoldable pub took : IoNode Disk → MemoryPool.Outcome × MemoryPool → Outcome (IoNode Disk) ℕ
    took s (MemoryPool.Outcome.returns e, p) = returns e (record s { pool = p })
    took s (MemoryPool.Outcome.bad_alloc, p) = throws Exception.bad_alloc (record s { pool = p })
    took s (MemoryPool.Outcome.null_dereference, p) = undefined
    took s (MemoryPool.Outcome.endless, p) = undefined

    -- memory_allocator.allocate()
    abbrev pub allocate_elem : M Disk ℕ
    allocate_elem s = took s (allocate os.malloc_ok s.pool)

    -- block::allocate_memory
    unfoldable pub allocate_memory : BlockId → M Disk ℕ
    allocate_memory id = do
      b ← read_block id
      release b.elem
      e ← allocate_elem
      put_block id (record b { elem = some e; valid = true })
      pure block_bytes

  -- The memory of a block goes back to the pool.
  unfoldable pub give_up : BlockId → Block → Option ℕ → M Disk ℕ
  give_up id b none = pure 0
  give_up id b (some e) = do
    free_elem e
    put_block id (record b { elem = none; writeback_page = none })
    pure block_bytes

  -- block::free_memory
  unfoldable pub free_memory : BlockId → M Disk ℕ
  free_memory id = do
    b ← read_block id
    (if b.dirty then pure 0 else if not b.valid then pure 0 else give_up id b b.elem)

  -- block::~block, and the erasure of its entry
  unfoldable pub delete_block : BlockId → M Disk (Unit {0})
  delete_block id = do
    b ← read_block id
    (elim b.writeback_page [
      | none ↦ pure tt
      | some page ↦ modify λ s. record s { queue = erase_page page s.queue }
    ])
    release b.elem
    f ← read_file id.0
    put_file id.0 (record f { blocks = erase id.1 f.blocks })
