-- ===== src/Message/RoundTrip.antt =====
-- What is pushed onto a message is popped from it, in the same order.
use huron_fs.Prelude.{
  ℕ, ◌+◌, ◌^◌, ◌≤◌, ◌<◌, ◌≡◌, ◌↔◌, sym, ap, ◌∙◌, Bool-cases, inl, inr, none, some, List, [], ◌∷◌,
  ◌++◌, arith, length, length-append, leb,
}
use huron_fs.Prelude.Memory.{put, slice, slice-put}
use huron_fs.Message.{room, IoTask, do_pop, pop, pop_string, reset, transmit}
use huron_fs.Message.Machine.{Layout, IsLayout}
use huron_fs.Message.Items.{
  Item, number, string, IsItem, AreItems, push_items, pop_item, pop_items, encode_item, encode,
  with_bytes, do_pop-fits, c_string-nul, slice-split, run-bind,
}
use huron_fs.Message.Push.{push_items-fits, push_items-full}

module _ (l : Layout) where
  -- The receiver's side
  abbrev skip : ℕ → IoTask → IoTask
  skip n t = record t { current_point = t.current_point + n }

  module _ (lawful : IsLayout l) where
    pop_string-reads :
        (s : List ℕ) (t : IoTask)
        → length s + 1 < 256 ^ 8
        → t.current_point + length (encode_item l (string s)) ≤ room
        → slice t.buffer t.current_point (length (encode_item l (string s)))
          ≡ encode_item l (string s)
        → pop_string l t ≡ some (s ++ 0 ∷ [], skip (length (encode_item l (string s))) t)
    unfolding pop_string pop
    pop_string-reads s t h r e =
        let head : List ℕ = l.bytes_of 8 (length s + 1) in
        let sum = length-append head (s ++ 0 ∷ []) in
        let eight : length head ≡ 8 = lawful.width_of 8 (length s + 1) in
        let (first, second) = slice-split t.buffer t.current_point head (s ++ 0 ∷ []) e in
        let len : length (s ++ 0 ∷ []) ≡ length s + 1 = length-append s (0 ∷ []) in
        let popped : pop l 8 t ≡ some (length s + 1, skip 8 t) =
          run-bind (do_pop 8 t) _ (slice t.buffer t.current_point 8, skip 8 t)
            (do_pop-fits 8 t (omega (arith, sum, eight)))
          ∙ ap (λ v. some (v, skip 8 t))
              (ap l.value_of (ap (slice t.buffer t.current_point) (sym eight) ∙ first)
                ∙ lawful.reads 8 (length s + 1) h) in
        run-bind (pop l 8 t) _ (length s + 1, skip 8 t) popped
        ∙ do_pop-fits (length s + 1) (skip 8 t) (omega (arith, sum, eight, len))
        ∙ ap
            (λ (bytes : List ℕ).
              some (bytes, record t { current_point = t.current_point + 8 + (length s + 1) }))
            (ap (λ x. slice t.buffer (t.current_point + x) (length s + 1)) (sym eight)
              ∙ ap (slice t.buffer (t.current_point + length head)) (sym len)
              ∙ second)
        ∙ ap (λ (n : ℕ). some (s ++ 0 ∷ [], record t { current_point = n }))
            (omega (arith, sum, eight, len))

    pop_item-reads :
        (i : Item) (t : IoTask)
        → IsItem i
        → t.current_point + length (encode_item l i) ≤ room
        → slice t.buffer t.current_point (length (encode_item l i)) ≡ encode_item l i
        → pop_item l i t ≡ some (i, skip (length (encode_item l i)) t)
    unfolding pop
    pop_item-reads (number width value) t h r e =
        let bytes : List ℕ = l.bytes_of width value in
        let wide : length bytes ≡ width = lawful.width_of width value in
        run-bind (pop l width t) _ (value, skip (length bytes) t)
          (run-bind (do_pop width t) _ (bytes, skip (length bytes) t)
              (ap (λ w. do_pop w t) (sym wide)
                ∙ do_pop-fits (length bytes) t r
                ∙ ap (λ b. some (b, skip (length bytes) t)) e)
            ∙ ap (λ v. some (v, skip (length bytes) t)) (lawful.reads width value h))
    pop_item-reads (string s) t h r e =
        run-bind (pop_string l t) _ (s ++ 0 ∷ [], skip (length (encode_item l (string s))) t)
          (pop_string-reads s t h.1 r e)
        ∙ ap (λ b. some (string b, skip (length (encode_item l (string s))) t)) (c_string-nul s h.0)

    pop_items-reads :
        (is : List Item) (t : IoTask)
        → AreItems is
        → t.current_point + length (encode l is) ≤ room
        → slice t.buffer t.current_point (length (encode l is)) ≡ encode l is
        → pop_items l is t ≡ some (is, skip (length (encode l is)) t)
    unfolding pop_items encode
    pop_items-reads [] t h r e =
        ap (λ (n : ℕ). some ([], record t { current_point = n })) (omega arith)
    pop_items-reads (i ∷ is) t h r e =
        let here : List ℕ = encode_item l i in
        let there : List ℕ = encode l is in
        let sum = length-append here there in
        let (first, second) = slice-split t.buffer t.current_point here there e in
        let t' : IoTask = skip (length here) t in
        run-bind (pop_item l i t) _ (i, t') (pop_item-reads i t h.0 (omega (arith, sum)) first)
        ∙ run-bind (pop_items l is t') _ (is, skip (length there) t')
            (pop_items-reads is t' h.1 (omega (arith, sum)) second)
        ∙ ap (λ (n : ℕ). some (i ∷ is, record t { current_point = n })) (omega (arith, sum))

-- The receiver's task once everything is popped
abbrev pub read_through : IoTask → IoTask
read_through t = record t { current_point = t.message_size }

-- The sender resets its task, pushes items that fit the buffer and sends the message: the receiver
-- pops the same items, in the same order, and has then read the whole message.
pub pop_items-push_items :
    (l : Layout) (is : List Item) (from to : IoTask)
    → IsLayout l
    → AreItems is
    → length (encode l is) ≤ room
    → (sent : IoTask) × (push_items l is (reset from) ≡ some sent)
      × (pop_items l is (transmit sent to) ≡ some (is, read_through (transmit sent to)))
unfolding reset transmit
pop_items-push_items l is from to lawful h r =
    let bytes : List ℕ = encode l is in
    let sent : IoTask = with_bytes l bytes (reset from) in
    let got : IoTask = transmit sent to in
    let pushed : slice sent.buffer 0 (length bytes) ≡ bytes = slice-put from.buffer 0 bytes in
    let all : slice sent.buffer 0 sent.message_size ≡ bytes =
      ap (slice sent.buffer 0) (omega arith) ∙ pushed in
    (
      sent,
      push_items-fits l is (reset from) (omega arith),
      pop_items-reads l lawful is got h (omega arith)
            (ap (λ b. slice (put to.buffer 0 b) 0 (length bytes)) all ∙ slice-put to.buffer 0 bytes)
          ∙ ap (λ (n : ℕ). some (is, record got { current_point = n })) (omega arith),
    )

-- Pushing items writes behind the end of the buffer exactly if they do not fit; no push looks.
pub push_items-none_iff :
    (l : Layout) (is : List Item) (t : IoTask)
    → t.message_size ≤ room
    → (push_items l is t ≡ none) ↔ (room < t.message_size + length (encode l is))
push_items-none_iff l is t p = (
  λ e. elim (Bool-cases (leb (t.message_size + length (encode l is)) room)) [
    | inl fits ↦ absurd (some-none (sym (push_items-fits l is t (ground arith)) ∙ e))
    | inr full ↦ ground arith
  ],
  push_items-full l is t p,
)
  where
    some-none : {A : Type 0} {a : A} → some a ≡ none → ⊥
    some-none h = cc
