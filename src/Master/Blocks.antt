-- ===== src/Master/Blocks.antt =====
-- The block lists of src/Master/src/Master.cpp: _create_block_list,
-- _allocate_new_blocks_for_writing, _select_node_block_set and the loop of _parse_truncate_file.
-- A block list maps the offset of a block to the bytes in it.
pub mod Spec
pub mod Create
pub mod Extend
pub mod Select
pub mod Range
mod Tests
use huron_fs.Prelude.{
  ℕ, zero, suc, ◌+◌, ◌-◌, ◌≡◌, Bool, Option, none, some, List, [], ◌∷◌, ltb, leb, ◌==◌,
  if◌then◌else◌, Ordering, compare,
}
use huron_fs.Prelude.Map.{ℕ_key, Map, find, set, insert, erase}
use huron_fs.Block.{block_bytes, min_of, max_of, get_block_start_point, size_from_block}

abbrev pub BlockList : Type 0
BlockList = Map ℕ ℕ

-- The iterator one past the entry of `key`: the least key above it, or the end.
unfoldable pub next_key : {V : Type 0} → ℕ → Map ℕ V → Option ℕ
next_key key [] = none
next_key key ((k, v) ∷ m) = if ltb key k then some k else next_key key m

-- The loop of _create_block_list; `none` is a loop that does not end.
pub create_blocks : ℕ → ℕ → ℕ → ℕ → BlockList → Option BlockList
create_blocks zero block_size point remaining blocks = none
create_blocks (suc fuel) block_size point remaining blocks =
    let size : ℕ = min_of block_size remaining in
    let rest : Option BlockList =
      create_blocks fuel block_size (point + size) (remaining - size) (insert point size blocks) in
    if remaining == 0 then some blocks else rest

-- Master::_create_block_list. A round takes at least one byte, so `file_size` rounds do.
pub create_block_list : ℕ → ℕ → BlockList → Option BlockList
create_block_list file_size block_size blocks =
    create_blocks (suc file_size) block_size 0 file_size
      (if file_size == 0 then insert 0 0 blocks else blocks)

-- Master::_append_block
unfoldable pub append_block : ℕ → ℕ → BlockList → BlockList
append_block start_point size blocks = insert start_point size blocks

-- One round of the loop of _allocate_new_blocks_for_writing, at the iterator `current`.
unfoldable pub write_block : Option ℕ → ℕ → ℕ → BlockList → Option ℕ × BlockList
unfolding append_block
write_block none point size blocks = (none, append_block point size blocks)
write_block (some key) point size blocks = elim (find key blocks) [
  | none ↦ (none, blocks)
  | some old ↦
      let blocks' : BlockList = set key (max_of size old) blocks in (next_key key blocks', blocks')
]

-- The loop, with fuel for its rounds; ssize_t `remaining` ends it at 0 or below.
unfoldable pub write_blocks : ℕ → Option ℕ → ℕ → ℕ → BlockList → BlockList
write_blocks zero current point remaining blocks = blocks
write_blocks (suc fuel) current point remaining blocks =
    let (next, blocks') = write_block current point (min_of remaining block_bytes) blocks in
    let rest : BlockList =
      write_blocks fuel next (point + block_bytes) (remaining - block_bytes) blocks' in
    if remaining == 0 then blocks else rest

-- Master::_allocate_new_blocks_for_writing
unfoldable pub allocate_new_blocks_for_writing : ℕ → ℕ → BlockList → BlockList
allocate_new_blocks_for_writing start_point size blocks =
    let point : ℕ = get_block_start_point start_point in
    let remaining : ℕ = size_from_block start_point size in
    elim (find point blocks) [
      | none ↦ write_blocks (suc remaining) none point remaining blocks
      | some held ↦
          if ltb (remaining + start_point) (point + held)
          then blocks
          else write_blocks (suc remaining) (some point) point remaining blocks
    ]

-- The loop of _select_node_block_set; `none` is a read through the end iterator.
unfoldable pub select_blocks : ℕ → ℕ → Option ℕ → BlockList → BlockList → Option BlockList
select_blocks zero remaining current blocks chosen = some chosen
select_blocks (suc fuel) zero current blocks chosen = some chosen
select_blocks (suc fuel) (suc r) none blocks chosen = none
select_blocks (suc fuel) (suc r) (some key) blocks chosen = elim (find key blocks) [
  | none ↦ none
  | some held ↦
      select_blocks fuel (suc r - block_bytes) (next_key key blocks) blocks (insert key held chosen)
]

-- The block list that Master::_select_node_block_set builds.
unfoldable pub select_block_set : ℕ → ℕ → BlockList → Option BlockList
select_block_set start_point size blocks =
    let point : ℕ = get_block_start_point start_point in
    select_blocks (suc size) size (elim (find point blocks) [ none ↦ none | some _ ↦ some point ])
      blocks []

-- The loop of _parse_truncate_file that erases blocks.
pub erase_blocks : ℕ → ℕ → ℕ → BlockList → BlockList
erase_blocks zero point size blocks = blocks
erase_blocks (suc fuel) point size blocks =
    let rest : BlockList = erase_blocks fuel (point + block_bytes) size (erase point blocks) in
    if leb (point + block_bytes) size then rest else blocks

-- The whole of it, from the block after the new end on.
pub truncate_blocks : ℕ → BlockList → BlockList
truncate_blocks size blocks =
    erase_blocks (suc size) (get_block_start_point size + block_bytes) size blocks
