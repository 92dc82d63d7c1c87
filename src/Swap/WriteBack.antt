-- ===== src/Swap/WriteBack.antt =====
-- The pages that are chosen to be written back.
use huron_fs.Prelude.{
  ℕ, zero, suc, ◌≤◌, ◌≡◌, ◌≢◌, refl, ap, ◌∙◌, sym, ◌==◌, ◌||◌, Bool, true, false, Bool-cases, inl,
  inr, Option, some, List, [], ◌∷◌, length, take, arith,
}
use huron_fs.Prelude.Int.{ℤ, pos, negsuc}
use huron_fs.Swap.{
  AccessQueue, Collected, chosen, put_first, is_zero, pred, collect_dirty, prepare_writeback_page,
}

-- The first `count` of some data, or all of them for a negative count
abbrev pub up_to : {A : Type 0} → ℤ → List A → List A
up_to (pos n) l = take n l
up_to (negsuc n) l = l

up_to-pred :
    {A : Type 0} (count : ℤ) (a : A) (l : List A)
    → is_zero count ≡ false
    → up_to count (a ∷ l) ≡ a ∷ up_to (pred count) l
unfolding is_zero pred
up_to-pred (pos zero) a l h = absurd (ground (arith, h))
up_to-pred (pos (suc n)) a l h = refl
up_to-pred (negsuc n) a l h = refl

up_to_nil : {A : Type 0} (count : ℤ) → up_to {A = A} count [] ≡ []
up_to_nil (pos zero) = refl
up_to_nil (pos (suc n)) = refl
up_to_nil (negsuc n) = refl

up_to_zero : {A : Type 0} (count : ℤ) (l : List A) → is_zero count ≡ true → up_to count l ≡ []
unfolding is_zero
up_to_zero (pos zero) l h = refl
up_to_zero (pos (suc n)) l h = absurd (ground (arith, h))
up_to_zero (negsuc n) l h = absurd (ground (arith, h))

module _ {A : Type 0} (need : A → Option Bool) where
  -- The list of dirty pages from a page on holds these data, each with whether it needs to be
  -- written back.
  abbrev pub DirtyFrom : AccessQueue A → ℕ → List (A × Bool) → Type 0
  DirtyFrom q page [] = page ≡ q.last_dirty
  DirtyFrom q page ((a, wanted) ∷ l) =
      (page ≢ q.last_dirty)
      × (q.item page ≡ some a)
      × (need a ≡ some wanted)
      × ((next : ℕ) × (q.next_dirty page ≡ some next) × DirtyFrom q next l)

-- The data that need to be written back
abbrev pub wanted_of : {A : Type 0} → List (A × Bool) → List A
wanted_of [] = []
wanted_of ((a, true) ∷ l) = a ∷ wanted_of l
wanted_of ((a, false) ∷ l) = wanted_of l

module _ {A : Type 0} (need : A → Option Bool) (q : AccessQueue A) where
  put_first_lem :
      (a : A) (c : Collected A) (l : List A) → c ≡ chosen l → put_first a c ≡ chosen (a ∷ l)
  unfolding put_first
  put_first_lem a c l e = ap (put_first a) e

  same_page : (page last : ℕ) (b : Bool) → page ≡ last → (b || (page == last)) ≡ true
  same_page page last b e = ground (arith, e)

  other_page : (page last : ℕ) → page ≢ last → (page == last) ≡ false
  other_page page last n = ground (arith, n)

  -- One turn of the loop, on a page in the list
  turn :
      (fuel : ℕ) (count : ℤ) (page : ℕ) (a : A) (w : Bool) (l : List (A × Bool))
      → page ≢ q.last_dirty
      → q.item page ≡ some a
      → need a ≡ some w
      → collect_dirty fuel need count (q.next_dirty page) q ≡ chosen (up_to count (wanted_of l))
      → collect_dirty fuel need (pred count) (q.next_dirty page) q
        ≡ chosen (up_to (pred count) (wanted_of l))
      → collect_dirty (suc fuel) need count (some page) q
        ≡ chosen (up_to count (wanted_of ((a, w) ∷ l)))
  unfolding collect_dirty
  turn fuel count page a w l n i m skipped taken = elim (Bool-cases (is_zero count)) [
    | inl z ↦ rw z (ap chosen (sym (up_to_zero count (wanted_of ((a, w) ∷ l)) z)))
    | inr z ↦ rw (z, other_page page q.last_dirty n, i, m) (both w z)
  ]
    where
      both :
          (w : Bool)
          → is_zero count ≡ false
          → (elim w [
            | true ↦ put_first a (collect_dirty fuel need (pred count) (q.next_dirty page) q)
            | false ↦ collect_dirty fuel need count (q.next_dirty page) q
          ])
            ≡ chosen (up_to count (wanted_of ((a, w) ∷ l)))
      both true z =
          put_first_lem a (collect_dirty fuel need (pred count) (q.next_dirty page) q) _ taken
          ∙ ap chosen (sym (up_to-pred count a (wanted_of l) z))
      both false z = skipped

  collect_dirty_lem :
      (fuel : ℕ) (count : ℤ) (page : ℕ) (l : List (A × Bool))
      → length l ≤ fuel
      → DirtyFrom need q page l
      → collect_dirty (suc fuel) need count (some page) q ≡ chosen (up_to count (wanted_of l))
  unfolding collect_dirty
  collect_dirty_lem fuel count page [] h d =
      rw (same_page page q.last_dirty (is_zero count) d) (ap chosen (sym (up_to_nil count)))
  collect_dirty_lem zero count page ((a, w) ∷ l) h d = absurd (omega (arith, h))
  collect_dirty_lem (suc fuel) count page ((a, w) ∷ l) h d =
      let (next, e, rest) = d.3 in
      turn (suc fuel) count page a w l d.0 d.1 d.2
        (ap (λ p. collect_dirty (suc fuel) need count p q) e
          ∙ collect_dirty_lem fuel count next l (omega (arith, h)) rest)
        (ap (λ p. collect_dirty (suc fuel) need (pred count) p q) e
          ∙ collect_dirty_lem fuel (pred count) next l (omega (arith, h)) rest)

  -- Where the list of dirty pages is linked from its first page to its end, each page in it with its
  -- data and each of these known to need a write-back or not, and is no longer than the pages made,
  -- prepare_writeback_page ends, and chooses, in the order of the list, the first `count` of the data
  -- that need to be written back, or all of these for a negative count, and nothing else.
  pub prepare_writeback_page_lem :
      (count : ℤ) (page : ℕ) (l : List (A × Bool))
      → q.next_dirty q.last_dirty ≡ some page
      → DirtyFrom need q page l
      → length l ≤ q.unused
      → prepare_writeback_page need count q ≡ chosen (up_to count (wanted_of l))
  unfolding prepare_writeback_page
  prepare_writeback_page_lem count page l e d h =
      ap (λ (p : Option ℕ). collect_dirty (suc q.unused) need count p q) e
      ∙ collect_dirty_lem q.unused count page l h d
