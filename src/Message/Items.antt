-- ===== src/Message/Items.antt =====
-- A message as a list of items: integers of some width, and strings.
use huron_fs.Prelude.{
  ℕ, ◌+◌, ◌^◌, ◌≤◌, ◌<◌, ◌≡◌, ◌≢◌, refl, sym, ap, ◌∙◌, Option, none, some, List, [], ◌∷◌, ◌++◌,
  arith, length, length-append, take, drop, take-append_left, drop-append_left,
}
use huron_fs.Prelude.Memory.{Memory, put, put-append, slice, slice-append, length-slice}
use huron_fs.Message.{
  room, IoTask, ◌>>=◌, do_push, do_pop, push_back, push_back_string, pop, pop_string, c_string,
}
use huron_fs.Message.Machine.{Layout}

-- What a task pushes: an integer of some width, or a string without a NUL.
pub data Item : Type 0 where
  number : ℕ → ℕ → Item
  string : List ℕ → Item

abbrev pub HasNoNul : List ℕ → Type 0
HasNoNul [] = Unit {0}
HasNoNul (b ∷ bs) = (b ≢ 0) × HasNoNul bs

-- The item can be pushed: its integers fit their widths.
abbrev pub IsItem : Item → Type 0
IsItem (number width value) = value < 256 ^ width
IsItem (string s) = HasNoNul s × (length s + 1 < 256 ^ 8)

abbrev pub AreItems : List Item → Type 0
AreItems [] = Unit {0}
AreItems (i ∷ is) = IsItem i × AreItems is

module _ (l : Layout) where
  abbrev pub push_item : Item → IoTask → Option IoTask
  push_item (number width value) t = push_back l width value t
  push_item (string s) t = push_back_string l s t

  unfoldable pub push_items : List Item → IoTask → Option IoTask
  push_items [] t = some t
  push_items (i ∷ is) t = do t' ← push_item i t; push_items is t'

  -- A receiver knows what comes next: an integer of a width, or a string.
  abbrev pub pop_item : Item → IoTask → Option (Item × IoTask)
  pop_item (number width _) t = do (value, t') ← pop l width t; some (number width value, t')
  pop_item (string _) t = do (bytes, t') ← pop_string l t; some (string (c_string bytes), t')

  unfoldable pub pop_items : List Item → IoTask → Option (List Item × IoTask)
  pop_items [] t = some ([], t)
  pop_items (i ∷ is) t = do
    (i', t') ← pop_item i t
    (rest, t'') ← pop_items is t'
    some (i' ∷ rest, t'')

  -- The bytes of items, without a message.
  abbrev pub encode_item : Item → List ℕ
  encode_item (number width value) = l.bytes_of width value
  encode_item (string s) = l.bytes_of 8 (length s + 1) ++ (s ++ 0 ∷ [])

  unfoldable pub encode : List Item → List ℕ
  encode [] = []
  encode (i ∷ is) = encode_item i ++ encode is

  -- The message after `bytes` are pushed onto it.
  abbrev pub with_bytes : List ℕ → IoTask → IoTask
  with_bytes bytes t = record t {
    buffer = put t.buffer t.message_size bytes;
    message_size = t.message_size + length bytes;
  }

pub do_push-fits :
    (bytes : List ℕ) (t : IoTask)
    → t.message_size + length bytes ≤ room
    → do_push bytes t
      ≡ some (record t {
        buffer = put t.buffer t.message_size bytes;
        message_size = t.message_size + length bytes;
      })
unfolding do_push
do_push-fits bytes t h = ground arith

pub do_push-full :
    (bytes : List ℕ) (t : IoTask) → room < t.message_size + length bytes → do_push bytes t ≡ none
unfolding do_push
do_push-full bytes t h = ground arith

pub do_pop-fits :
    (num : ℕ) (t : IoTask)
    → t.current_point + num ≤ room
    → do_pop num t
      ≡ some
          (slice t.buffer t.current_point num, record t { current_point = t.current_point + num })
unfolding do_pop
do_pop-fits num t h = ground arith

pub c_string-nul : (s : List ℕ) → HasNoNul s → c_string (s ++ 0 ∷ []) ≡ s
unfolding c_string
c_string-nul [] h = refl
c_string-nul (b ∷ bs) h = ground (arith, c_string-nul bs h.1)

pub with_bytes-append :
    (l : Layout) (xs ys : List ℕ) (t : IoTask)
    → with_bytes l ys (with_bytes l xs t) ≡ with_bytes l (xs ++ ys) t
with_bytes-append l xs ys t =
    ap
      (λ (m : Memory). record t {
        buffer = m;
        message_size = t.message_size + length xs + length ys;
      })
      (put-append t.buffer t.message_size xs ys)
    ∙ ap (λ (n : ℕ). record t { buffer = put t.buffer t.message_size (xs ++ ys); message_size = n })
        (omega (arith, length-append xs ys))

pub slice-split :
    (m : Memory) (at : ℕ) (xs ys : List ℕ)
    → slice m at (length (xs ++ ys)) ≡ xs ++ ys
    → (slice m at (length xs) ≡ xs) × (slice m (at + length xs) (length ys) ≡ ys)
slice-split m at xs ys e =
    let a : List ℕ = slice m at (length xs) in
    let b : List ℕ = slice m (at + length xs) (length ys) in
    let cut : a ++ b ≡ xs ++ ys =
      sym (slice-append m at (length xs) (length ys))
      ∙ ap (slice m at) (sym (length-append xs ys))
      ∙ e in
    let same : length a ≡ length xs = length-slice m at (length xs) in
    (
      sym (take-append_left a b)
          ∙ ap (λ n. take n (a ++ b)) same
          ∙ ap (take (length xs)) cut
          ∙ take-append_left xs ys,
      sym (drop-append_left a b)
          ∙ ap (λ n. drop n (a ++ b)) same
          ∙ ap (drop (length xs)) cut
          ∙ drop-append_left xs ys,
    )

pub run-bind :
    {A B : Type 0} (o : Option A) (f : A → Option B) (a : A) → o ≡ some a → (o >>= f) ≡ f a
run-bind o f a e = ap (λ o. o >>= f) e
