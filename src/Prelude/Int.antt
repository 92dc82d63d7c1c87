-- ===== src/Prelude/Int.antt =====
-- Signed integers over the native numbers, for `ssize_t` and `int` values that may be negative.
use huron_fs.Prelude.{ℕ, ◌≡◌, ◌↔◌, compare, Ordering, arith}

-- `negsuc n` is -(n + 1).
pub data ℤ : Type 0 where
  pos : ℕ → ℤ
  negsuc : ℕ → ℤ

abbrev pub order_ℤ : ℤ → ℤ → Ordering
order_ℤ (pos a) (pos b) = compare a b
order_ℤ (pos a) (negsuc b) = Ordering.gt
order_ℤ (negsuc a) (pos b) = Ordering.lt
order_ℤ (negsuc a) (negsuc b) = compare b a

pub order_ℤ_iff : (a b : ℤ) → (order_ℤ a b ≡ Ordering.eq) ↔ (a ≡ b)
order_ℤ_iff (pos a) (pos b) = ground arith
order_ℤ_iff (pos a) (negsuc b) = ground arith
order_ℤ_iff (negsuc a) (pos b) = ground arith
order_ℤ_iff (negsuc a) (negsuc b) = ground arith
