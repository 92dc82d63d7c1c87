-- ===== src/Exec.antt =====
-- How a piece of C++ on a state of type `S` runs: it ends by a value, by an exception, or by
-- undefined behaviour.
pub mod Laws
use huron_fs.Prelude.{Option, none, some, List, [], ◌∷◌}

-- std::out_of_range, std::runtime_error, std::bad_alloc
pub data Exception : Type 0 where
  out_of_range runtime_error bad_alloc : Exception

pub data Outcome (S : Type 0) (A : Type 0) : Type 0 where
  returns : A → S → Outcome S A
  throws : Exception → S → Outcome S A
  undefined : Outcome S A

abbrev pub Exec : Type 0 → Type 0 → Type 0
Exec S A = S → Outcome S A

infixl 5 ◌>>=◌ ◌>>◌
module _ {S : Type 0} where
  abbrev pub ◌>>=◌ : {A B : Type 0} → Exec S A → (A → Exec S B) → Exec S B
  ◌>>=◌ m f s = elim (m s) [ returns a t ↦ f a t | throws e t ↦ throws e t | undefined ↦ undefined ]

  abbrev pub ◌>>◌ : {A B : Type 0} → Exec S A → Exec S B → Exec S B
  ◌>>◌ m k s = elim (m s) [ returns a t ↦ k t | throws e t ↦ throws e t | undefined ↦ undefined ]

  abbrev pub pure : {A : Type 0} → A → Exec S A
  pure a s = returns a s

  abbrev pub throw : {A : Type 0} → Exception → Exec S A
  throw e s = throws e s

  -- Undefined behaviour: a read through a null pointer or an end iterator.
  abbrev pub fault : {A : Type 0} → Exec S A
  fault s = undefined

  abbrev pub gets : {A : Type 0} → (S → A) → Exec S A
  gets f s = returns (f s) s

  abbrev pub modify : (S → S) → Exec S (Unit {0})
  modify f s = returns tt (f s)

  -- try { m } catch (exception e) { handler e }
  abbrev pub catch : {A : Type 0} → Exec S A → (Exception → Exec S A) → Exec S A
  catch m handler s = elim (m s) [
    | returns a t ↦ returns a t
    | throws e t ↦ handler e t
    | undefined ↦ undefined
  ]

  -- A pointer that is read must not be null; `at` throws where a key is missing.
  abbrev pub deref : {A : Type 0} → Option A → Exec S A
  deref none = fault
  deref (some a) = pure a

  abbrev pub at : {A : Type 0} → Option A → Exec S A
  at none = throw out_of_range
  at (some a) = pure a

  -- for (x : xs) body x
  unfoldable pub for_each : {A : Type 0} → List A → (A → Exec S (Unit {0})) → Exec S (Unit {0})
  for_each [] body = pure tt
  for_each (x ∷ xs) body = do body x; for_each xs body
