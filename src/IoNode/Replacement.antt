-- ===== src/IoNode/Replacement.antt =====
-- How an IOnode finds memory for a block: the part of src/IOnode/src/IOnode.cpp that works the queue
-- of pages, and CBB_basic_swap::swap_out and check_writeback_page.
use huron_fs.Prelude.{
  ℕ, zero, suc, ◌+◌, ◌-◌, ◌==◌, Bool, true, false, not, Option, none, some, List, [], ◌∷◌,
  if◌then◌else◌,
}
use huron_fs.Prelude.Int.{pos}
use huron_fs.Prelude.Map.{ℕ_key, ℤ_key}
use huron_fs.Block.{block_bytes}
use huron_fs.MemoryPool.{has_memory_left}
use huron_fs.Exec.{◌>>=◌, ◌>>◌, pure, fault, gets, modify, deref, for_each}
use huron_fs.Swap.{
  AccessQueue, Collected, chosen, gone, endless, pop_page, touch, push_page, del_dirty_page,
  prepare_writeback_page,
}
use huron_fs.IoNode.{IoNode, System, M, Block, BlockId, writeback_counts}
use huron_fs.IoNode.Access.{find_block, read_block, put_block}
use huron_fs.IoNode.Blocks.{allocate_memory, free_memory}
use huron_fs.IoNode.Storage.{write_to_storage}

module _ {Disk : Type 0} where
  abbrev pub set_queue : AccessQueue BlockId → M Disk (Unit {0})
  set_queue q = modify λ s. record s { queue = q }

  -- IOnode::need_writeback
  abbrev pub need_writeback : BlockId → M Disk Bool
  need_writeback id = do b ← read_block id; pure b.dirty

  -- IOnode::free_data. A write-back does not end while it is waited for.
  unfoldable pub free_data : BlockId → M Disk ℕ
  free_data id = do
    b ← read_block id
    (if b.writing_back then fault else pure tt)
    freed ← free_memory id
    b ← read_block id
    put_block id (record b { swapped_out = true })
    pure freed

  -- IOnode::update_access_order, CBB_lru::access
  abbrev pub track : BlockId → Bool → Block → M Disk (Unit {0})
  track id dirty b = elim b.writeback_page [
    | some page ↦ modify λ s. record s { queue = touch page dirty s.queue }
    | none ↦ do
      pushed ← gets (λ s. push_page id dirty s.queue)
      set_queue pushed.1
      put_block id (record b { writeback_page = some pushed.0 })
  ]

  unfoldable pub update_access_order : BlockId → Bool → M Disk (Unit {0})
  update_access_order id dirty = do b ← read_block id; track id dirty b

  -- CBB_basic_swap::check_writeback_page on one block
  abbrev pub check_page : BlockId → M Disk (Unit {0})
  check_page id = do
    b ← read_block id
    (if b.dirty then pure tt else elim b.writeback_page [
      | none ↦ pure tt
      | some page ↦ modify λ s. record s { queue = del_dirty_page page s.queue }
    ])

  abbrev pub is_dirty : IoNode Disk → BlockId → Option Bool
  is_dirty s id = elim (find_block id s) [ none ↦ none | some b ↦ some b.dirty ]

  abbrev pub chosen_blocks : Collected BlockId → M Disk (List BlockId)
  chosen_blocks (chosen blocks) = pure blocks
  chosen_blocks gone = fault
  chosen_blocks endless = fault

  -- IOnode::add_write_back, with ASYNC
  unfoldable pub add_write_back : M Disk (Unit {0})
  add_write_back = do
    idle ← gets (λ s. s.idle)
    before ← gets (λ s. s.writeback_queue)
    (if not idle then pure tt else do
      for_each before check_page
      found ← gets (λ s. prepare_writeback_page (is_dirty s) (pos writeback_counts) s.queue)
      blocks ← chosen_blocks found
      modify λ s. record s { writeback_queue = blocks }
      (elim blocks [
        | [] ↦ pure tt
        | _ ∷ _ ↦ modify λ s. record s { remote_tasks = s.remote_tasks + 1 }
      ]))

  module _ (os : System Disk) where
    -- IOnode::writeback
    unfoldable pub writeback : BlockId → M Disk ℕ
    writeback id = do b ← read_block id; (if b.dirty then write_to_storage os id else pure 0)

    -- One turn of the loop of CBB_basic_swap::swap_out, on a page popped from the queue
    unfoldable pub swap_out_page : ℕ → M Disk ℕ
    swap_out_page page = do
      item ← gets (λ s. s.queue.item page)
      id ← deref item
      dirty ← need_writeback id
      (if dirty
          then (do _ ← writeback id; modify λ s. record s { queue = del_dirty_page page s.queue })
          else pure tt)
      free_data id

    -- CBB_basic_swap::swap_out: the bytes freed of `size`. The fuel is the number of pages.
    unfoldable pub swap_out_pages : ℕ → ℕ → M Disk ℕ
    swap_out_pages zero size = fault
    swap_out_pages (suc fuel) size = if size == 0 then pure 0 else do
      popped ← gets (λ s. pop_page s.queue)
      (elim popped.0 [
        | none ↦ pure 0
        | some page ↦ do
          set_queue popped.1
          freed ← swap_out_page page
          more ← swap_out_pages fuel (size - freed)
          pure (freed + more)
      ])

    unfoldable pub swap_out : ℕ → M Disk ℕ
    swap_out size = do pages ← gets (λ s. s.queue.unused); swap_out_pages (suc pages) size

    -- IOnode::allocate_memory_for_block
    unfoldable pub allocate_memory_for_block : BlockId → M Disk ℕ
    allocate_memory_for_block id = do
      left ← gets (λ s. has_memory_left s.pool block_bytes)
      (if left then pure 0 else swap_out block_bytes)
      allocate_memory os id

    -- IOnode::remote_task_handler on CBB_REMOTE_WRITE_BACK
    unfoldable pub remote_task_handler : M Disk (Unit {0})
    remote_task_handler = do
      modify λ s. record s { idle = false }
      blocks ← gets (λ s. s.writeback_queue)
      for_each blocks λ id. do _ ← writeback id; pure tt
      modify λ s. record s { idle = true }
