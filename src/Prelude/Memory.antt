-- ===== src/Prelude/Memory.antt =====
-- A piece of memory as a function of its offsets, with memcpy into it and out of it.
use Prim.Native.Nat.{ℕ, zero, suc, ◌+◌, ◌≤◌, ◌<◌}
use mathlib.Core.Path.{◌≡◌, refl, sym, ap, ◌∙◌}
use mathlib.Core.List.{List, [], ◌∷◌, ◌++◌}
use native.Mathlib.Omega.{arith}
use huron_fs.Prelude.Tests.{◌==◌, if◌then◌else◌}
use huron_fs.Prelude.Lists.{length}

abbrev pub Memory : Type 0
Memory = ℕ → ℕ

unfoldable pub store : ℕ → ℕ → Memory → Memory
store at b m i = if i == at then b else m i

-- memcpy(m + at, bytes, length bytes)
unfoldable pub put : Memory → ℕ → List ℕ → Memory
put m at [] = m
put m at (b ∷ bs) = put (store at b m) (suc at) bs

-- The `n` bytes from `at` on.
unfoldable pub slice : Memory → ℕ → ℕ → List ℕ
slice m at zero = []
slice m at (suc n) = m at ∷ slice m (suc at) n

pub put-below : (m : Memory) (at : ℕ) (bs : List ℕ) (i : ℕ) → i < at → put m at bs i ≡ m i
unfolding put store
put-below m at [] i h = refl
put-below m at (b ∷ bs) i h = put-below (store at b m) (suc at) bs i (omega arith) ∙ ground arith

pub put-above :
    (m : Memory) (at : ℕ) (bs : List ℕ) (i : ℕ) → at + length bs ≤ i → put m at bs i ≡ m i
unfolding put store
put-above m at [] i h = refl
put-above m at (b ∷ bs) i h = put-above (store at b m) (suc at) bs i (omega arith) ∙ ground arith

pub length-slice : (m : Memory) (at n : ℕ) → length (slice m at n) ≡ n
unfolding slice
length-slice m at zero = refl
length-slice m at (suc n) = omega (arith, length-slice m (suc at) n)

-- Equal bytes make equal slices.
pub slice-agree :
    (m o : Memory) (at n : ℕ)
    → ((i : ℕ) → at ≤ i → i < at + n → m i ≡ o i)
    → slice m at n ≡ slice o at n
unfolding slice
slice-agree m o at zero h = refl
slice-agree m o at (suc n) h =
    ap (λ b. b ∷ slice m (suc at) n) (h at (omega arith) (omega arith))
    ∙ ap (λ l. o at ∷ l) (slice-agree m o (suc at) n (λ i lo hi. h i (omega arith) (omega arith)))

first : (m : Memory) (at b : ℕ) (bs : List ℕ) → put (store at b m) (suc at) bs at ≡ b
unfolding store
first m at b bs = put-below (store at b m) (suc at) bs at (omega arith) ∙ ground arith

-- What is copied in is there.
pub slice-put : (m : Memory) (at : ℕ) (bs : List ℕ) → slice (put m at bs) at (length bs) ≡ bs
unfolding slice put
slice-put m at [] = refl
slice-put m at (b ∷ bs) =
    ap (λ x. x ∷ slice (put (store at b m) (suc at) bs) (suc at) (length bs)) (first m at b bs)
    ∙ ap (λ l. b ∷ l) (slice-put (store at b m) (suc at) bs)

slice_at :
    (m : Memory) (at k n total : ℕ)
    → total ≡ k + n
    → slice m at total ≡ slice m at k ++ slice m (at + k) n
unfolding slice
slice_at m at zero n total e =
    ap (slice m at) (omega (arith, e)) ∙ ap (λ x. slice m x n) (omega arith)
slice_at m at (suc k) n zero e = absurd (omega arith)
slice_at m at (suc k) n (suc total) e =
    ap (λ l. m at ∷ l) (slice_at m (suc at) k n total (omega arith))
    ∙ ap (λ x. m at ∷ (slice m (suc at) k ++ slice m x n)) (omega arith)

pub slice-append :
    (m : Memory) (at k n : ℕ) → slice m at (k + n) ≡ slice m at k ++ slice m (at + k) n
slice-append m at k n = slice_at m at k n (k + n) refl

pub slice-put_all :
    (m : Memory) (from n : ℕ) (bytes : List ℕ)
    → length bytes ≡ n
    → slice (put m from bytes) from n ≡ bytes
slice-put_all m from n bytes h = ap (slice (put m from bytes) from) (sym h) ∙ slice-put m from bytes

-- One copy behind another is one copy.
pub put-append :
    (m : Memory) (at : ℕ) (xs ys : List ℕ)
    → put (put m at xs) (at + length xs) ys ≡ put m at (xs ++ ys)
unfolding put
put-append m at [] ys = ap (λ x. put m x ys) (omega arith)
put-append m at (x ∷ xs) ys =
    ap (λ p. put (put m at (x ∷ xs)) p ys) (omega arith) ∙ put-append (store at x m) (suc at) xs ys
