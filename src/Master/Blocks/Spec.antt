-- ===== src/Master/Blocks/Spec.antt =====
-- What a block list should be, and how a map of offsets grows at its end.
use huron_fs.Prelude.{ℕ, ◌+◌, ◌≤◌, ◌<◌, ◌≡◌, refl, Option, none, some, [], ◌∷◌, ◌++◌, arith}
use huron_fs.Prelude.Map.{ℕ_key, find, set, insert}
use huron_fs.Master.Blocks.{BlockList, next_key}
use huron_fs.Block.{block_bytes}

-- The blocks follow one another from `point` on, none longer than a block.
abbrev pub Tiled : ℕ → BlockList → Type 0
Tiled point [] = Unit {0}
Tiled point ((k, s) ∷ m) = (k ≡ point) × (s ≤ block_bytes) × Tiled (point + block_bytes) m

-- The bytes of a block list.
abbrev pub total : BlockList → ℕ
total [] = 0
total ((k, s) ∷ m) = s + total m

-- The offset behind the last of the blocks that start at `point`.
abbrev pub end_of : ℕ → BlockList → ℕ
end_of point [] = point
end_of point ((k, s) ∷ m) = end_of (point + block_bytes) m

abbrev pub AllBelow : ℕ → BlockList → Type 0
AllBelow b [] = Unit {0}
AllBelow b ((k, s) ∷ m) = (k < b) × AllBelow b m

pub Tiled-AllBelow :
    (point b : ℕ) (m : BlockList) → Tiled point m → end_of point m ≤ b → AllBelow b m
Tiled-AllBelow point b [] t h = tt
Tiled-AllBelow point b ((k, s) ∷ m) t h = (
  omega (arith, le-end_of (point + block_bytes) m),
  Tiled-AllBelow (point + block_bytes) b m t.2 h,
)
  where
    le-end_of : (p : ℕ) (l : BlockList) → p ≤ end_of p l
    le-end_of p [] = omega arith
    le-end_of p ((j, r) ∷ l) = omega (arith, le-end_of (p + block_bytes) l)

pub find-AllBelow : (b : ℕ) (m : BlockList) → AllBelow b m → find b m ≡ none
unfolding find
find-AllBelow b [] h = refl
find-AllBelow b ((k, s) ∷ m) h = ground (arith, find-AllBelow b m h.1)

pub find-middle :
    (b : ℕ) (s : ℕ) (m n : BlockList) → AllBelow b m → find b (m ++ (b, s) ∷ n) ≡ some s
unfolding find
find-middle b s [] n h = ground arith
find-middle b s ((k, r) ∷ m) n h = ground (arith, find-middle b s m n h.1)

pub set-end : (b s : ℕ) (m : BlockList) → AllBelow b m → set b s m ≡ m ++ (b, s) ∷ []
unfolding set
set-end b s [] h = refl
set-end b s ((k, r) ∷ m) h = ground (arith, set-end b s m h.1)

pub insert-end : (b s : ℕ) (m : BlockList) → AllBelow b m → insert b s m ≡ m ++ (b, s) ∷ []
unfolding insert
insert-end b s m h = rw (insert, find-AllBelow b m h) (set-end b s m h)

pub set-middle :
    (b s r : ℕ) (m n : BlockList) → AllBelow b m → set b r (m ++ (b, s) ∷ n) ≡ m ++ (b, r) ∷ n
unfolding set
set-middle b s r [] n h = ground arith
set-middle b s r ((k, x) ∷ m) n h = ground (arith, set-middle b s r m n h.1)

abbrev pub first_key : BlockList → Option ℕ
first_key [] = none
first_key ((k, s) ∷ m) = some k

abbrev pub AllAbove : ℕ → BlockList → Type 0
AllAbove b [] = Unit {0}
AllAbove b ((k, s) ∷ m) = b < k

-- The iterator moves to the block behind.
pub next_key-middle :
    (b s : ℕ) (m n : BlockList)
    → AllBelow b m
    → AllAbove b n
    → next_key b (m ++ (b, s) ∷ n) ≡ first_key n
unfolding next_key
next_key-middle b s [] [] h a = ground arith
next_key-middle b s [] ((j, r) ∷ n) h a = ground arith
next_key-middle b s ((k, x) ∷ m) n h a = ground (arith, next_key-middle b s m n h.1 a)

pub AllBelow-snoc :
    (b c s : ℕ) (m : BlockList) → AllBelow b m → b < c → AllBelow c (m ++ (b, s) ∷ [])
AllBelow-snoc b c s [] h l = (l, tt)
AllBelow-snoc b c s ((k, x) ∷ m) h l = (omega arith, AllBelow-snoc b c s m h.1 l)
