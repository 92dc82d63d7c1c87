-- ===== src/Master/Blocks/Extend.antt =====
-- _allocate_new_blocks_for_writing walks an iterator over a map; on a list of consecutive blocks it
-- is one pass that lengthens the blocks of the range and appends those that are missing.
use huron_fs.Prelude.{
  ℕ, zero, suc, ◌+◌, ◌-◌, ◌≤◌, ◌<◌, ◌≡◌, refl, sym, ap, subst, ◌∙◌, true, Option, none, some, [],
  ◌∷◌, ◌++◌, append_assoc, append-nil, arith, ltb, ◌==◌, if◌then◌else◌, Bool-cases, inl, inr,
  ltb→lt,
}
use huron_fs.Prelude.Map.{ℕ_key, find}
use huron_fs.Block.{block_bytes, min_of, max_of, get_block_start_point, size_from_block}
use huron_fs.Master.Blocks.{
  BlockList, append_block, write_block, write_blocks, allocate_new_blocks_for_writing,
}
use huron_fs.Master.Blocks.Spec.{
  Tiled, AllBelow, AllAbove, end_of, first_key, Tiled-AllBelow, find-AllBelow, find-middle,
  insert-end, set-middle, next_key-middle, AllBelow-snoc,
}

-- The pass over the blocks from `point` on.
pub extend : ℕ → ℕ → ℕ → BlockList → BlockList
extend zero point r m = m
extend (suc fuel) point r [] =
    let rest : BlockList = extend fuel (point + block_bytes) (r - block_bytes) [] in
    if r == 0 then [] else (point, min_of r block_bytes) ∷ rest
extend (suc fuel) point r ((k, s) ∷ m) =
    let rest : BlockList = extend fuel (point + block_bytes) (r - block_bytes) m in
    if r == 0 then (k, s) ∷ m else (k, max_of (min_of r block_bytes) s) ∷ rest

Tiled-AllAbove : (b : ℕ) (m : BlockList) → Tiled (b + block_bytes) m → AllAbove b m
Tiled-AllAbove b [] t = tt
Tiled-AllAbove b ((k, s) ∷ m) t = omega arith

-- One round, at the end of the map and at a block.
write_block-end :
    (point s : ℕ) (pre : BlockList)
    → AllBelow point pre
    → write_block none point s pre ≡ (none, pre ++ (point, s) ∷ [])
unfolding write_block append_block
write_block-end point s pre b = rw (insert-end point s pre b)

write_block-middle :
    (k point s old : ℕ) (pre m : BlockList)
    → AllBelow k pre
    → Tiled (k + block_bytes) m
    → write_block (some k) point s (pre ++ (k, old) ∷ m)
      ≡ (first_key m, pre ++ (k, max_of s old) ∷ m)
unfolding write_block
write_block-middle k point s old pre m b t =
    rw (write_block, find-middle k old pre m b, set-middle k old (max_of s old) pre m b)
      (ap (λ (o : Option ℕ). (o, pre ++ (k, max_of s old) ∷ m))
        (next_key-middle k (max_of s old) pre m b (Tiled-AllAbove k m t)))

-- What the loop does in the rounds that are left.
abbrev Pass : ℕ → Type 0
Pass fuel =
    (point r : ℕ) (pre suf : BlockList)
    → AllBelow point pre
    → Tiled point suf
    → write_blocks fuel (first_key suf) point r (pre ++ suf) ≡ pre ++ extend fuel point r suf

end_round :
    (fuel point r : ℕ) (pre : BlockList)
    → AllBelow point pre
    → Pass fuel
    → (let (next, blocks) = write_block none point (min_of r block_bytes) pre in
        write_blocks fuel next (point + block_bytes) (r - block_bytes) blocks)
      ≡ pre
        ++ (point, min_of r block_bytes) ∷ extend fuel (point + block_bytes) (r - block_bytes) []
end_round fuel point r pre b pass =
    let s : ℕ = min_of r block_bytes in
    let pre' : BlockList = pre ++ (point, s) ∷ [] in
    rw (write_block-end point s pre b) (
      subst
        (λ l.
          write_blocks fuel none (point + block_bytes) (r - block_bytes) l
          ≡ pre' ++ extend fuel (point + block_bytes) (r - block_bytes) [])
        (append-nil pre')
        (pass (point + block_bytes) (r - block_bytes) pre' []
          (AllBelow-snoc point (point + block_bytes) s pre b (omega arith)) tt)
      ∙ append_assoc pre ((point, s) ∷ []) (extend fuel (point + block_bytes) (r - block_bytes) []))

middle_round :
    (fuel k s point r : ℕ) (pre m : BlockList)
    → AllBelow point pre
    → Tiled point ((k, s) ∷ m)
    → Pass fuel
    → (let (next, blocks) = write_block (some k) point (min_of r block_bytes) (pre ++ (k, s) ∷ m) in
        write_blocks fuel next (point + block_bytes) (r - block_bytes) blocks)
      ≡ pre
        ++ (k, max_of (min_of r block_bytes) s)
          ∷ extend fuel (point + block_bytes) (r - block_bytes) m
middle_round fuel k s point r pre m b t pass =
    let w : ℕ = min_of r block_bytes in
    let pre' : BlockList = pre ++ (k, max_of w s) ∷ [] in
    rw (write_block-middle k point w s pre m (rw t.0 b) (rw t.0 t.2)) (
      ap (λ l. write_blocks fuel (first_key m) (point + block_bytes) (r - block_bytes) l)
        (sym (append_assoc pre ((k, max_of w s) ∷ []) m))
      ∙ pass (point + block_bytes) (r - block_bytes) pre' m
          (AllBelow-snoc k (point + block_bytes) (max_of w s) pre (rw t.0 b) (omega arith)) t.2
      ∙ append_assoc pre ((k, max_of w s) ∷ [])
          (extend fuel (point + block_bytes) (r - block_bytes) m))

write_blocks_lem :
    (fuel point r : ℕ) (pre suf : BlockList)
    → AllBelow point pre
    → Tiled point suf
    → write_blocks fuel (first_key suf) point r (pre ++ suf) ≡ pre ++ extend fuel point r suf
unfolding write_blocks extend
write_blocks_lem zero point r pre suf b t = refl
write_blocks_lem (suc fuel) point r pre [] b t = elim (Bool-cases (r == 0)) [
  | inl z ↦ rw z
  | inr nz ↦ rw (nz, append-nil) (end_round fuel point r pre b (write_blocks_lem fuel))
]
write_blocks_lem (suc fuel) point r pre ((k, s) ∷ m) b t = elim (Bool-cases (r == 0)) [
  | inl z ↦ rw z
  | inr nz ↦ rw nz (middle_round fuel k s point r pre m b t (write_blocks_lem fuel))
]

-- A range of `r` bytes from the first of the blocks on lies in them.
abbrev pub Covers : ℕ → BlockList → Type 0
Covers r [] = r ≡ 0
Covers r ((k, s) ∷ m) = (min_of r block_bytes ≤ s) × Covers (r - block_bytes) m

Covers-nothing : (m : BlockList) → Covers 0 m
Covers-nothing [] = refl
Covers-nothing ((k, s) ∷ m) = (omega arith, Covers-nothing m)

-- No block of the first list is lost or shortened in the second.
abbrev pub Keeps : BlockList → BlockList → Type 0
Keeps [] l = Unit {0}
Keeps ((k, s) ∷ m) [] = ⊥
Keeps ((k, s) ∷ m) ((j, r) ∷ l) = (j ≡ k) × (s ≤ r) × Keeps m l

Keeps-refl : (m : BlockList) → Keeps m m
Keeps-refl [] = tt
Keeps-refl ((k, s) ∷ m) = (refl, omega arith, Keeps-refl m)

extend-Tiled :
    (fuel point r : ℕ) (m : BlockList) → Tiled point m → Tiled point (extend fuel point r m)
unfolding extend
extend-Tiled zero point r m t = t
extend-Tiled (suc fuel) point r [] t =
    ground (arith, extend-Tiled fuel (point + block_bytes) (r - block_bytes) [] tt)
extend-Tiled (suc fuel) point r ((k, s) ∷ m) t =
    ground (arith, extend-Tiled fuel (point + block_bytes) (r - block_bytes) m t.2)

extend-Covers : (fuel point r : ℕ) (m : BlockList) → r < fuel → Covers r (extend fuel point r m)
unfolding extend
extend-Covers zero point r m h = absurd (omega arith)
extend-Covers (suc fuel) point r [] h =
    ground (arith, extend-Covers fuel (point + block_bytes) (r - block_bytes) [])
extend-Covers (suc fuel) point r ((k, s) ∷ m) h =
    ground (arith, extend-Covers fuel (point + block_bytes) (r - block_bytes) m, Covers-nothing m)

extend-Keeps : (fuel point r : ℕ) (m : BlockList) → Keeps m (extend fuel point r m)
unfolding extend
extend-Keeps zero point r m = Keeps-refl m
extend-Keeps (suc fuel) point r [] = tt
extend-Keeps (suc fuel) point r ((k, s) ∷ m) =
    ground (arith, extend-Keeps fuel (point + block_bytes) (r - block_bytes) m, Keeps-refl m)

-- What a write of `size` bytes at `start_point` makes of the blocks from its first one on.
abbrev pub Written : ℕ → ℕ → BlockList → BlockList → Type 0
Written start_point size old new =
    Tiled (get_block_start_point start_point) new
    × Covers (size_from_block start_point size) new
    × Keeps old new

absent : (p : ℕ) (pre : BlockList) → AllBelow p pre → find p (pre ++ []) ≡ none
absent p pre b = rw append-nil (find-AllBelow p pre b)

-- The test for a write inside its first block.
inside :
    (start_point size s : ℕ) (m : BlockList)
    → s ≤ block_bytes
    → ltb (size_from_block start_point size + start_point) (get_block_start_point start_point + s)
      ≡ true
    → Covers (size_from_block start_point size) ((get_block_start_point start_point, s) ∷ m)
inside start_point size s m h e = (
  ground (arith, ltb→lt _ _ e),
  subst (λ r. Covers r m) (sym (nothing_left start_point size s h (ltb→lt _ _ e)))
      (Covers-nothing m),
)
  where
    nothing_left :
        (start_point size s : ℕ)
        → s ≤ block_bytes
        → size_from_block start_point size + start_point < get_block_start_point start_point + s
        → size_from_block start_point size - block_bytes ≡ 0
    nothing_left start_point size s h l = omega arith

allocate_at :
    (start_point size s : ℕ) (pre m : BlockList)
    → AllBelow (get_block_start_point start_point) pre
    → Tiled (get_block_start_point start_point) ((get_block_start_point start_point, s) ∷ m)
    → (new : BlockList) × (allocate_new_blocks_for_writing start_point size
          (pre ++ (get_block_start_point start_point, s) ∷ m)
        ≡ pre ++ new)
      × Written start_point size ((get_block_start_point start_point, s) ∷ m) new
unfolding allocate_new_blocks_for_writing
allocate_at start_point size s pre m b t =
    let p : ℕ = get_block_start_point start_point in
    let r : ℕ = size_from_block start_point size in
    elim (Bool-cases (ltb (r + start_point) (p + s))) [
      | inl short ↦ (
        (p, s) ∷ m,
        rw (allocate_new_blocks_for_writing, find-middle p s pre m b, short),
        (t, inside start_point size s m t.1 short, Keeps-refl ((p, s) ∷ m)),
      )
      | inr long ↦ (
        extend (suc r) p r ((p, s) ∷ m),
        rw (allocate_new_blocks_for_writing, find-middle p s pre m b, long)
            (write_blocks_lem (suc r) p r pre ((p, s) ∷ m) b t),
        (
          extend-Tiled (suc r) p r ((p, s) ∷ m) t,
          extend-Covers (suc r) p r ((p, s) ∷ m) (omega arith),
          extend-Keeps (suc r) p r ((p, s) ∷ m),
        ),
      )
    ]

allocate_case :
    (start_point size : ℕ) (pre suf : BlockList)
    → AllBelow (get_block_start_point start_point) pre
    → Tiled (get_block_start_point start_point) suf
    → (new : BlockList) × (allocate_new_blocks_for_writing start_point size (pre ++ suf)
        ≡ pre ++ new)
      × Written start_point size suf new
unfolding allocate_new_blocks_for_writing
allocate_case start_point size pre [] b t =
    let p : ℕ = get_block_start_point start_point in
    let r : ℕ = size_from_block start_point size in
    (
      extend (suc r) p r [],
      rw (allocate_new_blocks_for_writing, absent p pre b)
          (write_blocks_lem (suc r) p r pre [] b tt),
      (extend-Tiled (suc r) p r [] tt, extend-Covers (suc r) p r [] (omega arith), tt),
    )
allocate_case start_point size pre ((k, s) ∷ m) b t =
    rw t.0 (allocate_at start_point size s pre m b (refl, t.1, t.2))

-- On consecutive blocks a write that starts no later than their end leaves the blocks before it,
-- keeps every old block at least as long, and covers the range: from the start of the first
-- block up to the end of the write there is no gap.
pub allocate_new_blocks_for_writing_lem :
    (start_point size : ℕ) (pre suf : BlockList)
    → Tiled 0 pre
    → end_of 0 pre ≡ get_block_start_point start_point
    → Tiled (get_block_start_point start_point) suf
    → (new : BlockList) × (allocate_new_blocks_for_writing start_point size (pre ++ suf)
        ≡ pre ++ new)
      × Written start_point size suf new
allocate_new_blocks_for_writing_lem start_point size pre suf t e u =
    allocate_case start_point size pre suf
      (Tiled-AllBelow 0 (get_block_start_point start_point) pre t (omega arith)) u
