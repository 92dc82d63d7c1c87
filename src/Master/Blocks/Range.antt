-- ===== src/Master/Blocks/Range.antt =====
-- Which blocks _parse_write_file tells the client of, on the consecutive blocks of a file.
use huron_fs.Prelude.{
  ℕ, zero, suc, ◌+◌, ◌-◌, ◌*◌, ◌/◌, ◌≤◌, ◌<◌, ◌≡◌, refl, sym, ap, ◌∙◌, subst, some, [], ◌∷◌, ◌++◌,
  arith, length, take, drop, length-take, length-drop, split_rejoin,
}
use huron_fs.Block.{block_bytes, get_block_start_point, size_from_block}
use huron_fs.Master.Blocks.{BlockList, allocate_new_blocks_for_writing, select_block_set}
use huron_fs.Master.Blocks.Spec.{Tiled, end_of}
use huron_fs.Master.Blocks.Extend.{Covers, allocate_new_blocks_for_writing_lem}
use huron_fs.Master.Blocks.Select.{rounds, end_of_lem, select_block_set_lem}

Tiled-take : (n point : ℕ) (m : BlockList) → Tiled point m → Tiled point (take n m)
Tiled-take zero point m t = tt
Tiled-take (suc n) point [] t = tt
Tiled-take (suc n) point ((k, s) ∷ m) t = (t.0, t.1, Tiled-take n (point + block_bytes) m t.2)

Tiled-drop :
    (n point : ℕ) (m : BlockList)
    → n ≤ length m
    → Tiled point m
    → Tiled (point + n * block_bytes) (drop n m)
Tiled-drop zero point m h t = subst (λ p. Tiled p m) (omega arith) t
Tiled-drop (suc n) point [] h t = absurd (omega (arith, h))
Tiled-drop (suc n) point ((k, s) ∷ m) h t =
    subst (λ p. Tiled p (drop n m)) (omega arith)
      (Tiled-drop n (point + block_bytes) m (omega (arith, h)) t.2)

Tiled-append :
    (point at : ℕ) (m l : BlockList)
    → end_of point m ≡ at
    → Tiled point m
    → Tiled at l
    → Tiled point (m ++ l)
Tiled-append point at [] l e t u = subst (λ p. Tiled p l) (sym e) u
Tiled-append point at ((k, s) ∷ m) l e t u =
    (t.0, t.1, Tiled-append (point + block_bytes) at m l e t.2 u)

end_of-append : (point : ℕ) (m l : BlockList) → end_of point (m ++ l) ≡ end_of (end_of point m) l
end_of-append point [] l = refl
end_of-append point ((k, s) ∷ m) l = end_of-append (point + block_bytes) m l

Covers-length : (r : ℕ) (m : BlockList) → Covers r m → r ≤ length m * block_bytes
Covers-length r [] h = omega (arith, h)
Covers-length r ((k, s) ∷ m) h = omega (arith, Covers-length (r - block_bytes) m h.1)

module _ (start_point size : ℕ) (m : BlockList) (t : Tiled 0 m) where
  -- The blocks before the one of start_point
  abbrev before : BlockList
  before = take (start_point / block_bytes) m

  abbrev behind : BlockList
  behind = drop (start_point / block_bytes) m

  module _ (h : get_block_start_point start_point ≤ end_of 0 m) where
    enough : start_point / block_bytes ≤ length m
    enough = omega (arith, h, end_of_lem 0 m)

    end_of-before : end_of 0 before ≡ get_block_start_point start_point
    end_of-before =
        omega (arith, end_of_lem 0 before, length-take (start_point / block_bytes) m, enough)

    behind-Tiled : Tiled (get_block_start_point start_point) behind
    behind-Tiled =
        subst (λ p. Tiled p behind) (omega arith)
          (Tiled-drop (start_point / block_bytes) 0 m enough t)

    -- A write that starts no later than the end of the blocks leaves consecutive blocks that reach
    -- over its range.
    pub allocate_new_blocks_for_writing-Tiled :
        Tiled 0 (allocate_new_blocks_for_writing start_point size m)
        × (start_point + size ≤ end_of 0 (allocate_new_blocks_for_writing start_point size m))
    allocate_new_blocks_for_writing-Tiled =
        let p : ℕ = get_block_start_point start_point in
        let (new, e, w) =
          allocate_new_blocks_for_writing_lem start_point size before behind
            (Tiled-take (start_point / block_bytes) 0 m t) end_of-before behind-Tiled in
        subst (λ l. Tiled 0 l × (start_point + size ≤ end_of 0 l))
          (sym e
            ∙ ap (allocate_new_blocks_for_writing start_point size)
                (split_rejoin (start_point / block_bytes) m))
          (
            Tiled-append 0 p before new end_of-before (Tiled-take (start_point / block_bytes) 0 m t)
                w.0,
            omega (
              arith,
              end_of-append 0 before new,
              ap (λ q. end_of q new) end_of-before,
              end_of_lem p new,
              Covers-length (size_from_block start_point size) new w.1,
            ),
          )

-- On consecutive blocks that reach over a range of size > 0 bytes, the blocks chosen are those from
-- the block of start_point on, as many as size bytes fill.
pub select_block_set-Tiled :
    (start_point size : ℕ) (m : BlockList)
    → 0 < size
    → Tiled 0 m
    → start_point + size ≤ end_of 0 m
    → select_block_set start_point size m
      ≡ some (take (rounds size) (drop (start_point / block_bytes) m))
select_block_set-Tiled start_point size m pos t h =
    let from : ℕ = start_point / block_bytes in
    let reach : get_block_start_point start_point ≤ end_of 0 m = omega (arith, h) in
    let rest : BlockList = drop from m in
    let n : ℕ = rounds size in
    ap (select_block_set start_point size)
      (sym (ap (λ l. take from m ++ l) (split_rejoin n rest) ∙ split_rejoin from m))
    ∙ select_block_set_lem start_point size (take from m) (take n rest) (drop n rest) pos
        (Tiled-take from 0 m t) (end_of-before start_point size m t reach)
        (subst (Tiled (get_block_start_point start_point)) (sym (split_rejoin n rest))
          (behind-Tiled start_point size m t reach))
        (omega (arith, length-take n rest, length-drop from m, end_of_lem 0 m, h, pos))

-- What a write is told of: the blocks from the one of start_point on, as many as size bytes fill, in
-- the list that the write has extended.
pub select_block_set-allocate_new_blocks_for_writing :
    (start_point size : ℕ) (m : BlockList)
    → 0 < size
    → Tiled 0 m
    → get_block_start_point start_point ≤ end_of 0 m
    → select_block_set start_point size (allocate_new_blocks_for_writing start_point size m)
      ≡ some (
          take
            (rounds size)
            (drop (start_point / block_bytes) (allocate_new_blocks_for_writing start_point size m)))
select_block_set-allocate_new_blocks_for_writing start_point size m pos t h =
    let w = allocate_new_blocks_for_writing-Tiled start_point size m t h in
    select_block_set-Tiled start_point size (allocate_new_blocks_for_writing start_point size m) pos
      w.0 w.1
