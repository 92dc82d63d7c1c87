-- ===== src/Master/Blocks/Select.antt =====
-- Which blocks a read is told of, and what a truncation leaves of the block list.
use huron_fs.Prelude.{
  ℕ, zero, suc, ◌+◌, ◌-◌, ◌*◌, ◌/◌, ◌≤◌, ◌<◌, ◌≡◌, refl, sym, ap, ◌∙◌, some, [], ◌∷◌, ◌++◌,
  append_assoc, append-nil, arith, length,
}
use huron_fs.Prelude.Map.{ℕ_key}
use huron_fs.Block.{block_bytes, get_block_start_point}
use huron_fs.Master.Blocks.{
  BlockList, select_blocks, select_block_set, erase_blocks, truncate_blocks,
}
use huron_fs.Master.Blocks.Spec.{
  Tiled, AllBelow, AllAbove, end_of, first_key, Tiled-AllBelow, find-middle, insert-end,
  next_key-middle, AllBelow-snoc,
}

-- How many blocks a read of `size` bytes is told of.
abbrev pub rounds : ℕ → ℕ
rounds size = (size + block_bytes - 1) / block_bytes

-- The loop of _parse_truncate_file starts behind the new end and runs while it is before it: no
-- block is erased.
pub truncate_blocks_lem : (size : ℕ) (blocks : BlockList) → truncate_blocks size blocks ≡ blocks
unfolding truncate_blocks erase_blocks
truncate_blocks_lem size blocks = ground arith

Tiled-AllAbove : (b : ℕ) (m : BlockList) → Tiled (b + block_bytes) m → AllAbove b m
Tiled-AllAbove b [] t = tt
Tiled-AllAbove b ((k, s) ∷ m) t = omega arith

-- With `n` rounds to go the loop takes the next `n` blocks.
select_blocks_lem :
    (fuel r point : ℕ) (pre mid suf chosen : BlockList)
    → r ≤ fuel
    → AllBelow point pre
    → AllBelow point chosen
    → Tiled point (mid ++ suf)
    → length mid ≡ rounds r
    → select_blocks fuel r (first_key (mid ++ suf)) (pre ++ (mid ++ suf)) chosen
      ≡ some (chosen ++ mid)
unfolding select_blocks
select_blocks_lem zero zero point pre [] suf chosen h b c t e = rw append-nil
select_blocks_lem (suc fuel) zero point pre [] suf chosen h b c t e = rw append-nil
select_blocks_lem zero zero point pre (x ∷ mid) suf chosen h b c t e = absurd (omega arith)
select_blocks_lem (suc fuel) zero point pre (x ∷ mid) suf chosen h b c t e = absurd (omega arith)
select_blocks_lem zero (suc r) point pre mid suf chosen h b c t e = absurd (omega arith)
select_blocks_lem (suc fuel) (suc r) point pre [] suf chosen h b c t e = absurd (omega arith)
select_blocks_lem (suc fuel) (suc r) point pre ((k, s) ∷ mid) suf chosen h b c t e =
    rw (select_blocks, find-middle k s pre (mid ++ suf) (rw t.0 b))
      (rw
        (
          next_key-middle k s pre (mid ++ suf) (rw t.0 b)
              (Tiled-AllAbove k (mid ++ suf) (rw t.0 t.2)),
          insert-end k s chosen (rw t.0 c),
        )
        (ap
            (λ l.
              select_blocks fuel (suc r - block_bytes) (first_key (mid ++ suf)) l
                (chosen ++ (k, s) ∷ []))
            (sym (append_assoc pre ((k, s) ∷ []) (mid ++ suf)))
          ∙ select_blocks_lem fuel (suc r - block_bytes) (point + block_bytes) (pre ++ (k, s) ∷ [])
              mid suf (chosen ++ (k, s) ∷ []) (omega arith)
              (AllBelow-snoc k (point + block_bytes) s pre (rw t.0 b) (omega arith))
              (AllBelow-snoc k (point + block_bytes) s chosen (rw t.0 c) (omega arith)) t.2
              (omega arith)
          ∙ ap some (append_assoc chosen ((k, s) ∷ []) mid)))

select_at :
    (start_point size s : ℕ) (pre mid suf : BlockList)
    → 0 < size
    → AllBelow (get_block_start_point start_point) pre
    → Tiled
        (get_block_start_point start_point)
        ((get_block_start_point start_point, s) ∷ (mid ++ suf))
    → suc (length mid) ≡ rounds size
    → select_block_set start_point size
        (pre ++ (get_block_start_point start_point, s) ∷ (mid ++ suf))
      ≡ some ((get_block_start_point start_point, s) ∷ mid)
unfolding select_block_set
select_at start_point size s pre mid suf pos b t l =
    let p : ℕ = get_block_start_point start_point in
    rw (select_block_set, find-middle p s pre (mid ++ suf) b)
      (select_blocks_lem (suc size) size p pre ((p, s) ∷ mid) suf [] (omega arith) b tt t l)

pub end_of_lem : (point : ℕ) (m : BlockList) → end_of point m ≡ point + length m * block_bytes
end_of_lem point [] = omega arith
end_of_lem point ((k, s) ∷ m) = omega (arith, end_of_lem (point + block_bytes) m)

-- On consecutive blocks that reach far enough, a request for size > 0 bytes is told of the
-- blocks from the block of start_point on, as many as size bytes fill when they start at the
-- start of a block.
pub select_block_set_lem :
    (start_point size : ℕ) (pre mid suf : BlockList)
    → 0 < size
    → Tiled 0 pre
    → end_of 0 pre ≡ get_block_start_point start_point
    → Tiled (get_block_start_point start_point) (mid ++ suf)
    → length mid ≡ rounds size
    → select_block_set start_point size (pre ++ (mid ++ suf)) ≡ some mid
select_block_set_lem start_point size pre [] suf pos t e u l = absurd (omega arith)
select_block_set_lem start_point size pre ((k, s) ∷ mid) suf pos t e u l = rw u.0 (
    select_at start_point size s pre mid suf pos
      (Tiled-AllBelow 0 (get_block_start_point start_point) pre t (omega arith)) (refl, u.1, u.2) l)
