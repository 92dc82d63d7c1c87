-- ===== src/Prelude/Map.antt =====
-- std::map as a list of entries in the order of the keys, for any key type with a three-way
-- comparison that tells equal keys.
use huron_fs.Prelude.{
  ℕ, ◌≡◌, refl, ◌↔◌, compare, Ordering, Bool, true, false, Option, none, some, List, [], ◌∷◌,
  if◌then◌else◌, arith, ◌≢◌, ap, Bool-cases, inl, inr,
}
use huron_fs.Prelude.Int.{ℤ, order_ℤ, order_ℤ_iff}

pub record Key {ℓ} (K : Type ℓ) : Type ℓ where
  pub order : K → K → Ordering
  pub order_iff : (a b : K) → (order a b ≡ Ordering.eq) ↔ (a ≡ b)

pub order_ℕ_iff : (a b : ℕ) → (compare a b ≡ Ordering.eq) ↔ (a ≡ b)
order_ℕ_iff a b = ground arith

instance abbrev pub ℕ_key : Key ℕ
ℕ_key = record { order = compare; order_iff = order_ℕ_iff }

instance abbrev pub ℤ_key : Key ℤ
ℤ_key = record { order = order_ℤ; order_iff = order_ℤ_iff }

-- A path is its bytes; std::string compares them one by one.
abbrev pub FilePath : Type 0
FilePath = List ℕ

abbrev pub order_bytes : FilePath → FilePath → Ordering
order_bytes [] [] = Ordering.eq
order_bytes [] (y ∷ ys) = Ordering.lt
order_bytes (x ∷ xs) [] = Ordering.gt
order_bytes (x ∷ xs) (y ∷ ys) =
    let rest = order_bytes xs ys in
    elim (compare x y) [
      | Ordering.lt ↦ Ordering.lt
      | Ordering.gt ↦ Ordering.gt
      | Ordering.eq ↦ rest
    ]

pub order_bytes_iff : (a b : FilePath) → (order_bytes a b ≡ Ordering.eq) ↔ (a ≡ b)
order_bytes_iff [] [] = ground arith
order_bytes_iff [] (y ∷ ys) = ground arith
order_bytes_iff (x ∷ xs) [] = ground arith
order_bytes_iff (x ∷ xs) (y ∷ ys) = ground (arith, order_bytes_iff xs ys)

instance abbrev pub path_key : Key FilePath
path_key = record { order = order_bytes; order_iff = order_bytes_iff }

abbrev pub Map : Type 0 → Type 0 → Type 0
Map K V = List (K × V)

module _ {K : Type 0} ⦃k : Key K⦄ where
  abbrev pub same : K → K → Bool
  same a b = elim (k.order a b) [ Ordering.eq ↦ true | _ ↦ false ]

  pub same_iff : (a b : K) → (same a b ≡ true) ↔ (a ≡ b)
  same_iff a b = ground (arith, k.order_iff a b)

  pub same_refl : (a : K) → same a a ≡ true
  same_refl a = (same_iff a a).1 refl

no_entry :
    {V : Type 0} (x : V) (c : Bool) (o : Option V) → c ≡ true → (if c then some x else o) ≢ none
no_entry x c o e = ground (arith, e)

rest_of :
    {V : Type 0} (x : V) (c : Bool) (o : Option V)
    → c ≡ false
    → (if c then some x else o) ≡ none
    → o ≡ none
rest_of x c o e h = ground (arith, e, h)

module _ {K V : Type 0} ⦃k : Key K⦄ where
  -- find, at
  unfoldable pub find : K → Map K V → Option V
  find a [] = none
  find a ((b, v) ∷ m) = if same b a then some v else find a m

  -- insert of a new key, or assignment through the iterator of an old one
  unfoldable pub set : K → V → Map K V → Map K V
  set a v [] = (a, v) ∷ []
  set a v ((b, w) ∷ m) =
      let rest = set a v m in
      elim (k.order a b) [
        | Ordering.lt ↦ (a, v) ∷ (b, w) ∷ m
        | Ordering.eq ↦ (a, v) ∷ m
        | Ordering.gt ↦ (b, w) ∷ rest
      ]

  -- insert, which keeps the entry of a key that is there
  unfoldable pub insert : K → V → Map K V → Map K V
  insert a v m = elim (find a m) [ some _ ↦ m | none ↦ set a v m ]

  unfoldable pub erase : K → Map K V → Map K V
  erase a [] = []
  erase a ((b, w) ∷ m) = let rest = erase a m in if same b a then rest else (b, w) ∷ rest

  pub find-set :
      (a b : K) (v : V) (m : Map K V) → find b (set a v m) ≡ (if same a b then some v else find b m)
  unfolding find set
  find-set a b v [] = refl
  find-set a b v ((c, w) ∷ m) =
      ground (arith, find-set a b v m, k.order_iff a b, k.order_iff a c, k.order_iff c b)

  pub find-erase :
      (a b : K) (m : Map K V) → find b (erase a m) ≡ (if same a b then none else find b m)
  unfolding find erase
  find-erase a b [] = ground arith
  find-erase a b ((c, w) ∷ m) =
      ground (arith, find-erase a b m, k.order_iff a b, k.order_iff c a, k.order_iff c b)

  pub find-set_self : (a : K) (v : V) (m : Map K V) → find a (set a v m) ≡ some v
  find-set_self a v m = ground (arith, find-set a a v m, k.order_iff a a)

  pub find-set_other :
      (a b : K) (v : V) (m : Map K V) → same a b ≡ false → find b (set a v m) ≡ find b m
  find-set_other a b v m h = ground (arith, find-set a b v m)

  pub find-erase_self : (a : K) (m : Map K V) → find a (erase a m) ≡ none
  find-erase_self a m = ground (arith, find-erase a a m, k.order_iff a a)

  pub find-erase_other : (a b : K) (m : Map K V) → same a b ≡ false → find b (erase a m) ≡ find b m
  find-erase_other a b m h = ground (arith, find-erase a b m)

  pub set-set : (a : K) (v w : V) (m : Map K V) → set a v (set a w m) ≡ set a v m
  unfolding set
  set-set a v w [] = ground (arith, k.order_iff a a)
  set-set a v w ((b, x) ∷ m) =
      ground (arith, ap (λ r. (b, x) ∷ r) (set-set a v w m), k.order_iff a b, k.order_iff a a)

  pub erase-set : (a : K) (v : V) (m : Map K V) → erase a (set a v m) ≡ erase a m
  unfolding set erase
  erase-set a v [] = ground (arith, k.order_iff a a)
  erase-set a v ((b, x) ∷ m) =
      ground (arith, erase-set a v m, k.order_iff a b, k.order_iff a a, k.order_iff b a)

  pub erase-none : (a : K) (m : Map K V) → find a m ≡ none → erase a m ≡ m
  unfolding find erase
  erase-none a [] h = refl
  erase-none a ((b, x) ∷ m) h = elim (Bool-cases (same b a)) [
    | inl e ↦ absurd (no_entry x (same b a) (find a m) e h)
    | inr e ↦ rw e (ap (λ r. (b, x) ∷ r) (erase-none a m (rest_of x (same b a) (find a m) e h)))
  ]

  pub insert_new : (a : K) (v : V) (m : Map K V) → find a m ≡ none → insert a v m ≡ set a v m
  unfolding insert
  insert_new a v m h = rw (h, insert) refl
