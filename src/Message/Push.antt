-- ===== src/Message/Push.antt =====
-- What pushing items writes.
use huron_fs.Prelude.{
  ℕ, ◌+◌, ◌≤◌, ◌<◌, ◌≡◌, ap, ◌∙◌, Bool-cases, inl, inr, none, some, List, [], ◌∷◌, ◌++◌, arith,
  length, length-append, leb,
}
use huron_fs.Prelude.Memory.{put}
use huron_fs.Message.{room, IoTask, ◌>>=◌, do_push, push_back, push_back_string}
use huron_fs.Message.Machine.{Layout}
use huron_fs.Message.Items.{
  Item, number, string, push_item, push_items, encode_item, encode, with_bytes, do_push-fits,
  do_push-full, with_bytes-append, run-bind,
}

module _ (l : Layout) where
  push_item-fits :
      (i : Item) (t : IoTask)
      → t.message_size + length (encode_item l i) ≤ room
      → push_item l i t ≡ some (with_bytes l (encode_item l i) t)
  unfolding push_back push_back_string
  push_item-fits (number width value) t h = do_push-fits (l.bytes_of width value) t h
  push_item-fits (string s) t h =
      let head : List ℕ = l.bytes_of 8 (length s + 1) in
      let sum = length-append head (s ++ 0 ∷ []) in
      run-bind (push_back l 8 (length s + 1) t) (do_push (s ++ 0 ∷ [])) (with_bytes l head t)
        (do_push-fits head t (omega (arith, sum)))
      ∙ do_push-fits (s ++ 0 ∷ []) (with_bytes l head t) (omega (arith, sum))
      ∙ ap some (with_bytes-append l head (s ++ 0 ∷ []) t)

  push_item-full :
      (i : Item) (t : IoTask)
      → room < t.message_size + length (encode_item l i)
      → push_item l i t ≡ none
  unfolding push_back push_back_string
  push_item-full (number width value) t h = do_push-full (l.bytes_of width value) t h
  push_item-full (string s) t h =
      let head : List ℕ = l.bytes_of 8 (length s + 1) in
      let sum = length-append head (s ++ 0 ∷ []) in
      elim (Bool-cases (leb (t.message_size + length head) room)) [
        | inl fits ↦
            run-bind (push_back l 8 (length s + 1) t) (do_push (s ++ 0 ∷ [])) (with_bytes l head t)
              (do_push-fits head t (ground arith))
            ∙ do_push-full (s ++ 0 ∷ []) (with_bytes l head t) (omega (arith, sum))
        | inr full ↦ ap (λ o. o >>= do_push (s ++ 0 ∷ [])) (do_push-full head t (ground arith))
      ]

  pub push_items-fits :
      (is : List Item) (t : IoTask)
      → t.message_size + length (encode l is) ≤ room
      → push_items l is t ≡ some (with_bytes l (encode l is) t)
  unfolding push_items encode put
  push_items-fits [] t h = ap (λ (n : ℕ). some (record t { message_size = n })) (omega arith)
  push_items-fits (i ∷ is) t h =
      let sum = length-append (encode_item l i) (encode l is) in
      run-bind (push_item l i t) (push_items l is) (with_bytes l (encode_item l i) t)
        (push_item-fits i t (omega (arith, sum)))
      ∙ push_items-fits is (with_bytes l (encode_item l i) t) (omega (arith, sum))
      ∙ ap some (with_bytes-append l (encode_item l i) (encode l is) t)

  pub push_items-full :
      (is : List Item) (t : IoTask)
      → t.message_size ≤ room
      → room < t.message_size + length (encode l is)
      → push_items l is t ≡ none
  unfolding push_items encode
  push_items-full [] t p h = absurd (omega arith)
  push_items-full (i ∷ is) t p h =
      let sum = length-append (encode_item l i) (encode l is) in
      elim (Bool-cases (leb (t.message_size + length (encode_item l i)) room)) [
        | inl fits ↦
            run-bind (push_item l i t) (push_items l is) (with_bytes l (encode_item l i) t)
              (push_item-fits i t (ground arith))
            ∙ push_items-full is (with_bytes l (encode_item l i) t) (ground arith)
                (omega (arith, sum))
        | inr full ↦ ap (λ o. o >>= push_items l is) (push_item-full i t (ground arith))
      ]
