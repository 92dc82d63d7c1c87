-- ===== src/Client/Transfer/Start.antt =====
-- CBB_client::find_start_point on consecutive blocks.
use huron_fs.Prelude.{
  ℕ, zero, suc, ◌+◌, ◌*◌, ◌≤◌, ◌<◌, ◌≡◌, refl, sym, subst, ◌∙◌, [], ◌∷◌, length, ltb, false, arith,
}
use huron_fs.Prelude.Int.{pos}
use huron_fs.Prelude.Map.{Map}
use huron_fs.Block.{block_bytes}
use huron_fs.Client.Transfer.{offset_from, scan_start_point, find_start_point}

-- Each block starts where the one before it ends.
abbrev pub Follows : ℕ → Map ℕ ℕ → Type 0
Follows point [] = Unit {0}
Follows point ((k, n) ∷ m) = (k ≡ point) × Follows (point + block_bytes) m

not_before : (e k : ℕ) → k ≤ e → ltb e k ≡ false
not_before e k h = ground (arith, h)

scan_stays :
    (e k : ℕ) (m : Map ℕ ℕ)
    → e < k + block_bytes
    → Follows (k + block_bytes) m
    → scan_start_point e m k ≡ k
unfolding scan_start_point
scan_stays e k [] h f = refl
scan_stays e k ((j, n) ∷ m) h f = ground (arith, h, f.0)

scan_start_point_lem :
    (j point e ret : ℕ) (m : Map ℕ ℕ)
    → j < length m
    → e ≡ point + j * block_bytes
    → Follows point m
    → scan_start_point e m ret ≡ e
unfolding scan_start_point
scan_start_point_lem j point e ret [] h at f = absurd (omega (arith, h))
scan_start_point_lem zero point e ret ((k, n) ∷ m) h at f =
    rw (not_before e k (omega (arith, at, f.0))) (
      scan_stays e k m (omega (arith, at, f.0))
        (subst (λ p. Follows (p + block_bytes) m) (sym f.0) f.1)
      ∙ omega (arith, at, f.0))
scan_start_point_lem (suc j) point e ret ((k, n) ∷ m) h at f =
    rw (not_before e k (omega (arith, at, f.0))) (
      scan_start_point_lem j (point + block_bytes) e k m (omega (arith, h)) (omega (arith, at)) f.1)

-- From the start of a block, the next start point behind a whole block is that of the next block.
pub find_start_point_lem :
    (first j : ℕ) (blocks : Map ℕ ℕ)
    → suc j < length blocks
    → Follows first blocks
    → find_start_point first blocks (first + j * block_bytes) block_bytes
      ≡ first + suc j * block_bytes
unfolding find_start_point
find_start_point_lem first j blocks h f =
    scan_start_point_lem (suc j) first _ first blocks h (omega arith) f ∙ omega arith

pub offset_from_lem : (b a n : ℕ) → a ≡ b + n → offset_from b a ≡ pos n
offset_from_lem b a n h = ground (arith, h)
