-- ===== src/TaskQueue/Layout.antt =====
-- The ring of a task queue as a list of its nodes.
use huron_fs.Prelude.{ℕ, suc, ◌<◌, ◌≡◌, ◌≢◌, List, [], ◌∷◌, ◌++◌, arith}
use huron_fs.TaskQueue.{set_next}

-- The links lead from `a` through the nodes of the list to `b`.
abbrev pub Links : (ℕ → ℕ) → ℕ → List ℕ → ℕ → Type 0
Links next a [] b = next a ≡ b
Links next a (x ∷ xs) b = (next a ≡ x) × Links next x xs b

-- `a` is none of the nodes.
abbrev pub Absent : ℕ → List ℕ → Type 0
Absent a [] = Unit {0}
Absent a (x ∷ xs) = (a ≢ x) × Absent a xs

abbrev pub Distinct : List ℕ → Type 0
Distinct [] = Unit {0}
Distinct (x ∷ xs) = Absent x xs × Distinct xs

abbrev pub Below : ℕ → List ℕ → Type 0
Below n [] = Unit {0}
Below n (x ∷ xs) = (x < n) × Below n xs

pub ne_sym : (a b : ℕ) → a ≢ b → b ≢ a
ne_sym a b h = omega arith

pub Below-mono : (n : ℕ) (xs : List ℕ) → Below n xs → Below (suc n) xs
Below-mono n [] b = tt
Below-mono n (x ∷ xs) b = (omega arith, Below-mono n xs b.1)

pub Below-Absent : (n : ℕ) (xs : List ℕ) → Below n xs → Absent n xs
Below-Absent n [] b = tt
Below-Absent n (x ∷ xs) b = (omega arith, Below-Absent n xs b.1)

pub Below-append : (n : ℕ) (xs ys : List ℕ) → Below n xs → Below n ys → Below n (xs ++ ys)
Below-append n [] ys b c = c
Below-append n (x ∷ xs) ys b c = (b.0, Below-append n xs ys b.1 c)

pub Below-append_left : (n : ℕ) (xs ys : List ℕ) → Below n (xs ++ ys) → Below n xs
Below-append_left n [] ys b = tt
Below-append_left n (x ∷ xs) ys b = (b.0, Below-append_left n xs ys b.1)

pub Below-append_right : (n : ℕ) (xs ys : List ℕ) → Below n (xs ++ ys) → Below n ys
Below-append_right n [] ys b = b
Below-append_right n (x ∷ xs) ys b = Below-append_right n xs ys b.1

pub Absent-append : (a : ℕ) (xs ys : List ℕ) → Absent a xs → Absent a ys → Absent a (xs ++ ys)
Absent-append a [] ys b c = c
Absent-append a (x ∷ xs) ys b c = (b.0, Absent-append a xs ys b.1 c)

pub Absent-append_left : (a : ℕ) (xs ys : List ℕ) → Absent a (xs ++ ys) → Absent a xs
Absent-append_left a [] ys b = tt
Absent-append_left a (x ∷ xs) ys b = (b.0, Absent-append_left a xs ys b.1)

pub Absent-append_right : (a : ℕ) (xs ys : List ℕ) → Absent a (xs ++ ys) → Absent a ys
Absent-append_right a [] ys b = b
Absent-append_right a (x ∷ xs) ys b = Absent-append_right a xs ys b.1

-- A node that no list position holds can stand at the end as well as at the front.
pub Distinct-snoc : (a : ℕ) (xs : List ℕ) → Absent a xs → Distinct xs → Distinct (xs ++ a ∷ [])
Distinct-snoc a [] b d = (tt, tt)
Distinct-snoc a (x ∷ xs) b d =
    (Absent-append x xs (a ∷ []) d.0 (ne_sym a x b.0, tt), Distinct-snoc a xs b.1 d.1)

-- Where two stretches of the ring meet.
pub Links-append :
    (next : ℕ → ℕ) (a : ℕ) (xs : List ℕ) (m : ℕ) (ys : List ℕ) (b : ℕ)
    → Links next a xs m
    → Links next m ys b
    → Links next a (xs ++ m ∷ ys) b
Links-append next a [] m ys b l r = (l, r)
Links-append next a (x ∷ xs) m ys b l r = (l.0, Links-append next x xs m ys b l.1 r)

pub Links-split_left :
    (next : ℕ → ℕ) (a : ℕ) (xs : List ℕ) (m : ℕ) (ys : List ℕ) (b : ℕ)
    → Links next a (xs ++ m ∷ ys) b
    → Links next a xs m
Links-split_left next a [] m ys b l = l.0
Links-split_left next a (x ∷ xs) m ys b l = (l.0, Links-split_left next x xs m ys b l.1)

pub Links-split_right :
    (next : ℕ → ℕ) (a : ℕ) (xs : List ℕ) (m : ℕ) (ys : List ℕ) (b : ℕ)
    → Links next a (xs ++ m ∷ ys) b
    → Links next m ys b
Links-split_right next a [] m ys b l = l.1
Links-split_right next a (x ∷ xs) m ys b l = Links-split_right next x xs m ys b l.1

-- A write to a node that the stretch does not leave from changes nothing there.
pub Links-set_next :
    (next : ℕ → ℕ) (node target a : ℕ) (xs : List ℕ) (b : ℕ)
    → Absent node (a ∷ xs)
    → Links next a xs b
    → Links (set_next next node target) a xs b
unfolding set_next
Links-set_next next node target a [] b n l = ground arith
Links-set_next next node target a (x ∷ xs) b n l =
    (ground arith, Links-set_next next node target x xs b n.1 l.1)

-- In a list of distinct nodes the one in the middle is not among those before or after it.
pub Distinct-middle :
    (xs : List ℕ) (m : ℕ) (ys : List ℕ) → Distinct (xs ++ m ∷ ys) → Absent m xs × Absent m ys
Distinct-middle [] m ys d = (tt, d.0)
Distinct-middle (x ∷ xs) m ys d =
    let (before, after) = Distinct-middle xs m ys d.1 in
    ((ne_sym x m (Absent-append_right x xs (m ∷ ys) d.0).0, before), after)
