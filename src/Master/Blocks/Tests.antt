-- ===== src/Master/Blocks/Tests.antt =====
-- Block lists of small files.
use huron_fs.Prelude.{◌≡◌, ◌≢◌, refl, some, [], ◌∷◌, arith}
use huron_fs.Block.{block_bytes}
use huron_fs.Master.Blocks.{
  BlockList, create_block_list, allocate_new_blocks_for_writing, select_block_set, truncate_blocks,
}
use huron_fs.Master.Blocks.Spec.{Tiled, total}
use huron_fs.Master.Blocks.Create.{create_block_list_lem}
use huron_fs.Master.Blocks.Extend.{Written, allocate_new_blocks_for_writing_lem}
use huron_fs.Master.Blocks.Select.{select_block_set_lem, truncate_blocks_lem}

create_block_list_lem_example :
    (blocks : BlockList) × (create_block_list 1048577 block_bytes [] ≡ some blocks)
    × Tiled 0 blocks
    × (total blocks ≡ 1048577)
    × (blocks ≢ [])
create_block_list_lem_example = create_block_list_lem 1048577

-- A write into the last of two blocks that runs over into a new one.
allocate_new_blocks_for_writing_lem_example :
    (new : BlockList) × (allocate_new_blocks_for_writing 1048676 1048576
        ((0, 1048576) ∷ (1048576, 50) ∷ [])
      ≡ (0, 1048576) ∷ new)
    × Written 1048676 1048576 ((1048576, 50) ∷ []) new
allocate_new_blocks_for_writing_lem_example =
    allocate_new_blocks_for_writing_lem 1048676 1048576 ((0, 1048576) ∷ []) ((1048576, 50) ∷ [])
      (omega arith) refl (omega arith)

select_block_set_lem_example :
    select_block_set 1048676 20 ((0, 1048576) ∷ (1048576, 500) ∷ (2097152, 9) ∷ [])
    ≡ some ((1048576, 500) ∷ [])
select_block_set_lem_example =
    select_block_set_lem 1048676 20 ((0, 1048576) ∷ []) ((1048576, 500) ∷ []) ((2097152, 9) ∷ [])
      (omega arith) (omega arith) refl (omega arith) refl

truncate_blocks_lem_example :
    truncate_blocks 5 ((0, 1048576) ∷ (1048576, 500) ∷ []) ≡ (0, 1048576) ∷ (1048576, 500) ∷ []
truncate_blocks_lem_example = truncate_blocks_lem 5 ((0, 1048576) ∷ (1048576, 500) ∷ [])
