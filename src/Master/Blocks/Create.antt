-- ===== src/Master/Blocks/Create.antt =====
-- _create_block_list cuts a file into consecutive blocks.
use huron_fs.Prelude.{
  ℕ, zero, suc, ◌+◌, ◌-◌, ◌<◌, ◌≡◌, ◌≢◌, refl, ap, ◌∙◌, false, some, [], ◌∷◌, ◌++◌, append_assoc,
  append-nil, arith, ◌==◌, if◌then◌else◌, Bool-cases, inl, inr,
}
use huron_fs.Prelude.Map.{ℕ_key, find, set, insert}
use huron_fs.Block.{block_bytes, min_of}
use huron_fs.Master.Blocks.{BlockList, create_blocks, create_block_list}
use huron_fs.Master.Blocks.Spec.{Tiled, total, AllBelow, insert-end, AllBelow-snoc}

-- The file as its blocks, all full but perhaps the last.
pub cut : ℕ → ℕ → ℕ → BlockList
cut zero point remaining = []
cut (suc fuel) point remaining =
    let size : ℕ = min_of block_bytes remaining in
    let rest : BlockList = cut fuel (point + size) (remaining - size) in
    if remaining == 0 then [] else (point, size) ∷ rest

-- A round takes some bytes.
round_bounds :
    (fuel remaining : ℕ)
    → (remaining == 0) ≡ false
    → remaining < suc fuel
    → (0 < min_of block_bytes remaining) × (remaining - min_of block_bytes remaining < fuel)
round_bounds fuel remaining nz h = ground arith

create_blocks_lem :
    (fuel point remaining : ℕ) (blocks : BlockList)
    → remaining < fuel
    → AllBelow point blocks
    → create_blocks fuel block_bytes point remaining blocks
      ≡ some (blocks ++ cut fuel point remaining)
unfolding create_blocks cut
create_blocks_lem zero point remaining blocks h b = absurd (omega arith)
create_blocks_lem (suc fuel) point remaining blocks h b = elim (Bool-cases (remaining == 0)) [
  | inl z ↦ rw (z, append-nil)
  | inr nz ↦
      let size : ℕ = min_of block_bytes remaining in
      let (pos, less) = round_bounds fuel remaining nz h in
      rw (nz, insert-end point size blocks b)
        (create_blocks_lem fuel (point + size) (remaining - size) (blocks ++ (point, size) ∷ [])
            less (AllBelow-snoc point (point + size) size blocks b (omega (arith, pos)))
          ∙ ap some (
              append_assoc blocks ((point, size) ∷ [])
                (cut fuel (point + size) (remaining - size))))
]

-- After a short block nothing is left.
cut-empty : (fuel point remaining : ℕ) → remaining ≡ 0 → cut fuel point remaining ≡ []
unfolding cut
cut-empty zero point remaining h = refl
cut-empty (suc fuel) point remaining h = ground arith

cut-Tiled :
    (fuel point remaining : ℕ)
    → remaining < fuel
    → Tiled point (cut fuel point remaining) × (total (cut fuel point remaining) ≡ remaining)
unfolding cut
cut-Tiled zero point remaining h = absurd (omega arith)
cut-Tiled (suc fuel) point remaining h = ground (
  arith,
  cut-Tiled fuel (point + min_of block_bytes remaining) (remaining - min_of block_bytes remaining),
  cut-empty fuel (point + min_of block_bytes remaining) (remaining - min_of block_bytes remaining),
)

nonzero : (n : ℕ) → (suc n == 0) ≡ false
nonzero n = ground arith

cut-ne : (n : ℕ) → cut (suc (suc n)) 0 (suc n) ≢ []
unfolding cut
cut-ne n h = ground arith

pub empty_list : create_block_list 0 block_bytes [] ≡ some ((0, 0) ∷ [])
unfolding create_block_list create_blocks insert find set
empty_list = refl

-- The block list of a file: consecutive blocks from offset 0 that hold exactly the bytes of the
-- file, none longer than BLOCK_SIZE. The loop ends, and an empty file has one empty block.
pub create_block_list_lem :
    (file_size : ℕ)
    → (blocks : BlockList) × (create_block_list file_size block_bytes [] ≡ some blocks)
      × Tiled 0 blocks
      × (total blocks ≡ file_size)
      × (blocks ≢ [])
unfolding create_block_list
create_block_list_lem zero = ((0, 0) ∷ [], empty_list, (refl, omega arith, tt), refl, λ h. cc)
create_block_list_lem (suc n) = (
  cut (suc (suc n)) 0 (suc n),
  rw (nonzero n) (create_blocks_lem (suc (suc n)) 0 (suc n) [] (omega arith) tt),
  (cut-Tiled (suc (suc n)) 0 (suc n) (omega arith)).0,
  (cut-Tiled (suc (suc n)) 0 (suc n) (omega arith)).1,
  cut-ne n,
)
