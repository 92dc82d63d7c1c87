-- ===== src/Block.antt =====
-- src/Common/include/CBB_internal.h and CBB_const.h: the block arithmetic that Master, IOnode and
-- client share. Offsets are nonnegative and below 2 ^ 63, so no sum here wraps.
use huron_fs.Prelude.{ℕ, ◌+◌, ◌-◌, ◌*◌, ◌/◌, ltb, if◌then◌else◌}

-- BLOCK_SIZE, 1 MiB
abbrev pub block_bytes : ℕ
block_bytes = 1048576

-- MIN and MAX
abbrev pub min_of : ℕ → ℕ → ℕ
min_of a b = if ltb b a then b else a

abbrev pub max_of : ℕ → ℕ → ℕ
max_of a b = if ltb a b then b else a

-- get_block_size
abbrev pub get_block_size : ℕ → ℕ
get_block_size size = block_bytes

-- get_block_start_point(start_point)
abbrev pub get_block_start_point : ℕ → ℕ
get_block_start_point start_point = start_point / block_bytes * block_bytes

-- What get_block_start_point(start_point, size) writes to `size`: the bytes from the start of the
-- block to the end of the range.
abbrev pub size_from_block : ℕ → ℕ → ℕ
size_from_block start_point size = start_point - get_block_start_point start_point + size
