-- ===== src/IoNode/Storage/Failure.antt =====
-- A block that cannot be written back because the directory of its file cannot be opened.
use huron_fs.Prelude.{ℕ, ◌<◌, ◌≡◌, refl, ap, ◌∙◌, true, false, not, none, some, leb, arith}
use huron_fs.Prelude.Map.{ℕ_key, ℤ_key}
use huron_fs.Block.{block_bytes}
use huron_fs.MemoryPool.{free}
use huron_fs.Exec.{returns, pure, ◌>>◌}
use huron_fs.Exec.Laws.{run-if_false, run-bind, run-then}
use huron_fs.IoNode.{IoNode, Block, BlockId, max_open_file_count}
use huron_fs.IoNode.Access.{find_block, read_block, put_block, set_block}
use huron_fs.IoNode.Access.Laws.{run-read_block, run-put_block, find_block-set_block}
use huron_fs.IoNode.Blocks.{free_elem, give_up, free_memory}

pub few : (n : ℕ) → n < max_open_file_count → leb max_open_file_count n ≡ false
few n h = ground arith

module _ {Disk : Type 0} where
  -- The memory of a clean block is given up.
  pub free_memory-clean :
      (id : BlockId) (b : Block) (e : ℕ) (s : IoNode Disk)
      → find_block id s ≡ some b
      → b.elem ≡ some e
      → b.valid ≡ true
      → b.dirty ≡ false
      → (t : IoNode Disk) × (free_memory id s ≡ returns block_bytes t)
        × (find_block id t ≡ some (record b { elem = none; writeback_page = none }))
        × (t.pool ≡ free s.pool e)
        × (t.disk ≡ s.disk)
  unfolding free_memory give_up
  free_memory-clean id b e s h he hv hd =
      let c : Block = record b { elem = none; writeback_page = none } in
      let s1 : IoNode Disk = record s { pool = free s.pool e } in
      (
        set_block id c s1,
        run-bind (read_block id) _ b s s (run-read_block id b s h)
            ∙ run-if_false b.dirty _ _ s hd
            ∙ run-if_false (not b.valid) _ _ s (ap not hv)
            ∙ ap (λ o. give_up id b o s) he
            ∙ run-then (free_elem e) (put_block id c >> pure block_bytes) tt s s1 refl
            ∙ run-then (put_block id c) (pure block_bytes) tt s1 (set_block id c s1)
                (run-put_block id b c s1 h),
        find_block-set_block id b c s1 h,
        refl,
        refl,
      )
