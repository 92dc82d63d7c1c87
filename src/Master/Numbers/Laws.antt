-- ===== src/Master/Numbers/Laws.antt =====
-- File numbers and node ids are given out once, as long as some are free.
use huron_fs.Prelude.{
  ℕ, zero, suc, ◌+◌, ◌-◌, ◌≤◌, ◌<◌, ◌≡◌, ◌≢◌, refl, ◌⊎◌, inl, inr, Bool, true, false, Option, none,
  some, ◌==◌, if◌then◌else◌, arith, Bool-cases,
}
use huron_fs.Prelude.Int.{ℤ, pos, negsuc}
use huron_fs.Master.{Master, Outcome, returns}
use huron_fs.Master.Numbers.{
  mark, scan, scan_twice, take_file_no, get_file_no_below, release_file_no,
}

-- How many numbers below `n` are in use.
unfoldable pub used : ℕ → (ℕ → Bool) → ℕ
used zero pool = 0
used (suc n) pool = used n pool + (if pool n then 1 else 0)

-- The counter agrees with the pool.
pub record IsCounted (limit : ℕ) (s : Master) : Type 0 where
  pub counted : s.file_number ≡ used limit s.file_no_pool
  pub current : s.current_file_no ≤ limit

scan-some :
    (left current n : ℕ) (pool : ℕ → Bool)
    → scan left current pool ≡ some n
    → (current ≤ n) × (n < current + left) × (pool n ≡ false)
unfolding scan
scan-some zero current n pool e = cc
scan-some (suc left) current n pool e = elim (Bool-cases (pool current)) [
  | inl taken ↦
      let (a, b, c) = scan-some left (suc current) n pool (ground (arith, taken)) in
      (omega arith, omega arith, c)
  | inr free ↦ ground arith
]

scan-none :
    (left current k : ℕ) (pool : ℕ → Bool)
    → scan left current pool ≡ none
    → current ≤ k
    → k < current + left
    → pool k ≡ true
unfolding scan
scan-none zero current k pool e lo hi = absurd (omega arith)
scan-none (suc left) current k pool e lo hi = ground (arith, scan-none left (suc current) k pool)

used-full : (n : ℕ) (pool : ℕ → Bool) → ((k : ℕ) → k < n → pool k ≡ true) → used n pool ≡ n
unfolding used
used-full zero pool h = refl
used-full (suc n) pool h =
    ground (arith, h n (omega arith), used-full n pool (λ k l. h k (omega arith)))

used-mark_above :
    (limit n : ℕ) (b : Bool) (pool : ℕ → Bool)
    → limit ≤ n
    → used limit (mark n b pool) ≡ used limit pool
unfolding used mark
used-mark_above zero n b pool h = refl
used-mark_above (suc l) n b pool h = ground (arith, used-mark_above l n b pool)

used-mark :
    (limit n : ℕ) (b : Bool) (pool : ℕ → Bool)
    → n < limit
    → used limit (mark n b pool) + (if pool n then 1 else 0)
      ≡ used limit pool + (if b then 1 else 0)
unfolding used mark
used-mark zero n b pool h = absurd (omega arith)
used-mark (suc l) n b pool h = ground (arith, used-mark l n b pool, used-mark_above l n b pool)

-- The search finds a free number unless there is none.
pub scan_twice-some :
    (limit current n : ℕ) (pool : ℕ → Bool)
    → current ≤ limit
    → scan_twice limit current pool ≡ some n
    → (n < limit) × (pool n ≡ false)
unfolding scan_twice
scan_twice-some limit current n pool h e =
    ground (arith, scan-some (limit - current) current n pool, scan-some limit 0 n pool)

scan_twice-none :
    (limit current : ℕ) (pool : ℕ → Bool)
    → scan_twice limit current pool ≡ none
    → used limit pool ≡ limit
unfolding scan_twice
scan_twice-none limit current pool e =
    used-full limit pool
      λ k l. scan-none limit 0 k pool (ground (arith, e)) (omega arith) (omega arith)

-- What _get_file_no does: it gives out a number below the limit that was free, marks that number
-- and no other, and counts it; or, only if every number is in use, it returns -1.
abbrev pub Numbered : ℕ → Master → Outcome Master ℤ → Type 0
Numbered limit s o =
    ((n : ℕ) × (s' : Master) × (o ≡ returns (pos n) s')
      × (n < limit)
      × (s.file_no_pool n ≡ false)
      × (s'.file_no_pool n ≡ true)
      × ((k : ℕ) → k ≢ n → s'.file_no_pool k ≡ s.file_no_pool k)
      × IsCounted limit s')
    ⊎ ((s' : Master) × (o ≡ returns (negsuc 0) s')
        × (used limit s.file_no_pool ≡ limit)
        × (s'.file_no_pool ≡ s.file_no_pool))

pub mark-same : (n : ℕ) (b : Bool) (pool : ℕ → Bool) → mark n b pool n ≡ b
unfolding mark
mark-same n b pool = ground arith

mark-other : (n k : ℕ) (b : Bool) (pool : ℕ → Bool) → k ≢ n → mark n b pool k ≡ pool k
unfolding mark
mark-other n k b pool ne = ground arith

take_file_no-some :
    (limit n : ℕ) (s : Master)
    → IsCounted limit s
    → n < limit
    → s.file_no_pool n ≡ false
    → Numbered limit s (take_file_no limit s (some n))
unfolding take_file_no
take_file_no-some limit n s c lt free = inl (
  n,
  _,
  refl,
  lt,
  free,
  mark-same n true s.file_no_pool,
  (λ k ne. mark-other n k true s.file_no_pool ne),
  record {
    counted = ground (arith, used-mark limit n true s.file_no_pool lt, c.counted);
    current = lt;
  },
)

get_file_no-case :
    (limit : ℕ) (s : Master) (o : Option ℕ)
    → IsCounted limit s
    → scan_twice limit s.current_file_no s.file_no_pool ≡ o
    → Numbered limit s (take_file_no limit s o)
unfolding take_file_no
get_file_no-case limit s none c e =
    inr (_, refl, scan_twice-none limit s.current_file_no s.file_no_pool e, refl)
get_file_no-case limit s (some n) c e =
    let (lt, free) = scan_twice-some limit s.current_file_no n s.file_no_pool c.current e in
    take_file_no-some limit n s c lt free

-- With a counter that agrees with the pool, _get_file_no gives out a number below the limit
-- that was free, marks that number and no other, and keeps the counter right; or it returns
-- -1, only if every number is in use, and the pool stays as it was.
pub get_file_no-Numbered :
    (limit : ℕ) (s : Master) → IsCounted limit s → Numbered limit s (get_file_no_below limit s)
unfolding get_file_no_below
get_file_no-Numbered limit s c = elim (Bool-cases (s.file_number == limit)) [
  | inl full ↦ rw (get_file_no_below, full) (inr (s, refl, ground (arith, full, c.counted), refl))
  | inr some_left ↦ rw (get_file_no_below, some_left) (get_file_no-case limit s _ c refl)
]

-- With a counter that agrees with the pool, _release_file_no frees a number below the limit
-- that is in use, and the counter still agrees.
pub release_file_no-IsCounted :
    (limit n : ℕ) (s : Master)
    → IsCounted limit s
    → n < limit
    → s.file_no_pool n ≡ true
    → (s' : Master) × (release_file_no (pos n) s ≡ returns tt s')
      × (s'.file_no_pool n ≡ false)
      × IsCounted limit s'
unfolding release_file_no
release_file_no-IsCounted limit n s c lt taken = (
  _,
  refl,
  mark-same n false s.file_no_pool,
  record {
    counted = ground (arith, used-mark limit n false s.file_no_pool lt, c.counted, taken);
    current = c.current;
  },
)

scan-current :
    (left current : ℕ) (pool : ℕ → Bool)
    → 0 < left
    → pool current ≡ false
    → scan left current pool ≡ some current
unfolding scan
scan-current zero current pool lt free = absurd (omega arith)
scan-current (suc left) current pool lt free = rw free refl

-- The search stops at the current number if that is free.
pub scan_twice-current :
    (limit current : ℕ) (pool : ℕ → Bool)
    → current < limit
    → pool current ≡ false
    → scan_twice limit current pool ≡ some current
unfolding scan_twice
scan_twice-current limit current pool lt free =
    rw (scan_twice, scan-current (limit - current) current pool (omega arith) free) refl

abbrev pub numbered : ℕ → Master → Master
numbered n s = record s {
  file_no_pool = mark n true s.file_no_pool;
  file_number = s.file_number + 1;
  current_file_no = suc n;
}

pub run-get_file_no :
    (limit n : ℕ) (s : Master)
    → (s.file_number == limit) ≡ false
    → scan_twice limit s.current_file_no s.file_no_pool ≡ some n
    → get_file_no_below limit s ≡ returns (pos n) (numbered n s)
unfolding get_file_no_below take_file_no
run-get_file_no limit n s room found = rw (get_file_no_below, room, found) refl
