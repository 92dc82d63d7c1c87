-- ===== src/Prelude/Lists.antt =====
-- Lists measured and indexed by native numbers, under the library's names.
use Prim.Native.Nat.{ℕ, zero, suc, ◌+◌, ◌-◌, min}
use mathlib.Core.Path.{◌≡◌, refl, ap}
use mathlib.Core.List.{List, [], ◌∷◌, ◌++◌}
use native.Mathlib.Omega.{arith}

module _ {ℓ} {A : Type ℓ} where
  abbrev pub length : List A → ℕ
  length [] = 0
  length (x ∷ xs) = suc (length xs)

  pub length-append : (xs ys : List A) → length (xs ++ ys) ≡ length xs + length ys
  length-append [] ys = omega arith
  length-append (x ∷ xs) ys = omega (arith, length-append xs ys)

  abbrev pub take : ℕ → List A → List A
  take zero xs = []
  take (suc n) [] = []
  take (suc n) (x ∷ xs) = x ∷ take n xs

  abbrev pub drop : ℕ → List A → List A
  drop zero xs = xs
  drop (suc n) [] = []
  drop (suc n) (x ∷ xs) = drop n xs

module _ {ℓ} {A : Type ℓ} where
  pub length-take : (n : ℕ) (xs : List A) → length (take n xs) ≡ min n (length xs)
  length-take zero xs = omega arith
  length-take (suc n) [] = omega arith
  length-take (suc n) (x ∷ xs) = omega (arith, length-take n xs)

  pub length-drop : (n : ℕ) (xs : List A) → length (drop n xs) ≡ length xs - n
  length-drop zero xs = omega arith
  length-drop (suc n) [] = omega arith
  length-drop (suc n) (x ∷ xs) = omega (arith, length-drop n xs)

  -- A prefix is cut off by its length.
  pub take-append_left : (xs ys : List A) → take (length xs) (xs ++ ys) ≡ xs
  take-append_left [] ys = refl
  take-append_left (x ∷ xs) ys = ap (◌∷◌ x) (take-append_left xs ys)

  pub drop-append_left : (xs ys : List A) → drop (length xs) (xs ++ ys) ≡ ys
  drop-append_left [] ys = refl
  drop-append_left (x ∷ xs) ys = drop-append_left xs ys

  pub split_rejoin : (n : ℕ) (xs : List A) → take n xs ++ drop n xs ≡ xs
  split_rejoin zero xs = refl
  split_rejoin (suc n) [] = refl
  split_rejoin (suc n) (x ∷ xs) = ap (◌∷◌ x) (split_rejoin n xs)

  pub take_all : (n : ℕ) (xs : List A) → length xs ≡ n → take n xs ≡ xs
  take_all zero [] h = refl
  take_all zero (x ∷ xs) h = absurd (omega (arith, h))
  take_all (suc n) [] h = refl
  take_all (suc n) (x ∷ xs) h = ap (◌∷◌ x) (take_all n xs (omega (arith, h)))
