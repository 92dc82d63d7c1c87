-- ===== src/Prelude/Options.antt =====
-- Chains of results that may be missing.
use mathlib.Core.Option.{Option, none, some}

infixl 5 ◌>>=◌
abbrev pub ◌>>=◌ : {A B : Type 0} → Option A → (A → Option B) → Option B
◌>>=◌ none f = none
◌>>=◌ (some a) f = f a
