-- ===== src/Client/Transfer/Sent.antt =====
-- What CBB_client::_write_to_IOnode sends.
use huron_fs.Prelude.{
  ℕ, zero, suc, ◌+◌, ◌-◌, ◌*◌, ◌≤◌, ◌<◌, ◌≡◌, refl, sym, ap, ◌∙◌, some, List, [], ◌∷◌, length,
  length-take, length-drop, min, subst, take, drop, arith,
}
use huron_fs.Prelude.Int.{ℤ, pos}
use huron_fs.Prelude.Map.{Map}
use huron_fs.Block.{block_bytes}
use huron_fs.Exec.{returns, pure, deref}
use huron_fs.Exec.Laws.{run-bind, run-deref}
use huron_fs.Master.{Word, num}
use huron_fs.Client.{Client, Network, FileMeta}
use huron_fs.Client.Code
use huron_fs.Client.Query.{code, pop_int, query}
use huron_fs.Client.Query.Laws.{run-query}
use huron_fs.Client.Blocks.{NodePool}
use huron_fs.Client.Transfer.{
  first_key, first_handle, find_start_point, transfer_size, transfer_words, write_pieces,
  write_to_io_node,
}
use huron_fs.Client.Transfer.Queries.{
  Delivered, write_query, queries, pieces, transfer_size_lem, take-least, drop-least,
}
use huron_fs.Client.Transfer.Start.{Follows, find_start_point_lem, offset_from_lem}

module _ {Peer : Type 0} (net : Network Peer) (handle : ℕ) (file_no : ℤ) (first away : ℕ)
    (blocks : Map ℕ ℕ) (f : Follows first blocks) where
  -- The words of one query of the loop
  transfer_words_lem :
      (start current size : ℕ) (bytes : List ℕ)
      → current ≡ start + away
      → size ≡ length bytes
      → transfer_words Code.write_file file_no start current size
        ≡ (write_query file_no start away bytes).0
  transfer_words_lem start current size bytes h e =
      ap (λ o. code Code.write_file ∷ num file_no ∷ code start ∷ num o ∷ code size ∷ [])
        (offset_from_lem start current away h)
      ∙ ap (λ n. code Code.write_file ∷ num file_no ∷ code start ∷ num (pos away) ∷ code n ∷ []) e

  -- The pieces of the loop are those of the list of queries.
  queries_step :
      (n i start : ℕ) (buffer : List ℕ) (size : ℕ)
      → start ≡ first + i * block_bytes
      → size ≡ min (length buffer) block_bytes
      → write_query file_no start away (take size buffer)
          ∷ queries n file_no (first + suc i * block_bytes) away (drop size buffer)
        ≡ queries (suc n) file_no (first + i * block_bytes) away buffer
  queries_step n i start buffer size here least =
      let next : ℕ = first + suc i * block_bytes in
      ap
        (λ p.
          write_query file_no p away (take size buffer)
          ∷ queries n file_no next away (drop size buffer))
        here
      ∙ ap
          (λ l.
            write_query file_no (first + i * block_bytes) away l
            ∷ queries n file_no next away (drop size buffer))
          (take-least size block_bytes buffer least)
      ∙ ap
          (λ p.
            write_query file_no (first + i * block_bytes) away (take block_bytes buffer)
            ∷ queries n file_no p away (drop size buffer))
          (next_start i)
      ∙ ap
          (λ l.
            write_query file_no (first + i * block_bytes) away (take block_bytes buffer)
            ∷ queries n file_no (first + i * block_bytes + block_bytes) away l)
          (drop-least size block_bytes buffer least)
    where
      next_start : (i : ℕ) → first + suc i * block_bytes ≡ first + i * block_bytes + block_bytes
      next_start i = omega arith

  -- Where the loop is after `i` whole blocks, as long as bytes are left
  abbrev pub At : ℕ → ℕ → ℕ → ℕ → Type 0
  At i current start left =
      0 < left
      → (start ≡ first + i * block_bytes)
        × (current ≡ first + i * block_bytes + away)
        × (i * block_bytes + away + left ≤ length blocks * block_bytes)

  next-At :
      (i current start left : ℕ)
      → At i current start left
      → At
          (suc i)
          (current + transfer_size left)
          (find_start_point first blocks start (transfer_size left))
          (left - transfer_size left)
  next-At i current start left at = λ more.
      let (s, c, inside) = at (omega (arith, more)) in
      let whole : transfer_size left ≡ block_bytes = ground (arith, more) in
      (
        ap (λ n. find_start_point first blocks start n) whole
            ∙ ap (λ p. find_start_point first blocks p block_bytes) s
            ∙ find_start_point_lem first i blocks (omega (arith, inside, more, whole)) f,
        omega (arith, c, whole),
        omega (arith, inside, more, whole),
      )

  -- One turn of the loop, with the rest of it
  one_turn :
      (fuel i current start x : ℕ) (bytes : List ℕ) (words : List Word) (got : List ℕ)
      (s : Client Peer) (r q : Peer)
      → At i current start (suc (length bytes))
      → (let size : ℕ = transfer_size (suc (length bytes)) in
          net.ask handle
            (write_query file_no start away (take size (x ∷ bytes))).0
            (take size (x ∷ bytes))
            s.peer
          ≡ (some (record { words = code 0 ∷ words; bytes = got }), r))
      → (let size : ℕ = transfer_size (suc (length bytes)) in
          write_pieces net handle file_no first blocks fuel
            (current + size)
            (find_start_point first blocks start size)
            (drop size (x ∷ bytes))
            (record s { peer = r })
          ≡ returns (length (drop size (x ∷ bytes))) (record s { peer = q }))
      → write_pieces net handle file_no first blocks (suc fuel) current start (x ∷ bytes) s
        ≡ returns (suc (length bytes)) (record s { peer = q })
  unfolding write_pieces pop_int
  one_turn fuel i current start x bytes words got s r q at answer more =
      let buffer : List ℕ = x ∷ bytes in
      let size : ℕ = transfer_size (length buffer) in
      let piece : List ℕ = take size buffer in
      let rest : List ℕ = drop size buffer in
      let least : size ≡ min (length buffer) block_bytes = transfer_size_lem (length buffer) in
      let sent : size ≡ length piece = omega (arith, length-take size buffer, least) in
      let kept : length rest ≡ length buffer - size = length-drop size buffer in
      let (here, reached, _) = at (omega arith) in
      run-bind (query net handle (transfer_words Code.write_file file_no start current size) piece)
        _ (record { words = code 0 ∷ words; bytes = got }) s (record s { peer = r })
        (ap (λ w. query net handle w piece s)
            (transfer_words_lem start current size piece (omega (arith, here, reached)) sent)
          ∙ run-query net handle (write_query file_no start away piece).0 piece s
              (record { words = code 0 ∷ words; bytes = got }) r answer)
      ∙ run-bind
          (write_pieces net handle file_no first blocks fuel (current + size)
            (find_start_point first blocks start size) rest)
          (λ more. pure (size + more)) (length rest) (record s { peer = r }) (record s { peer = q })
          more
      ∙ ap (λ k. returns k (record s { peer = q })) (omega (arith, kept, least))

  run-write_pieces :
      (n fuel i current start : ℕ) (bytes : List ℕ) (s : Client Peer) (q : Peer)
      → n ≡ pieces (length bytes)
      → n ≤ fuel
      → At i current start (length bytes)
      → Delivered net handle (queries n file_no (first + i * block_bytes) away bytes) s.peer q
      → write_pieces net handle file_no first blocks fuel current start bytes s
        ≡ returns (length bytes) (record s { peer = q })
  unfolding write_pieces
  run-write_pieces zero fuel i current start [] s q e enough at d =
      ap (λ p. returns 0 (record s { peer = p })) d
  run-write_pieces (suc n) fuel i current start [] s q e enough at d = absurd (omega (arith, e))
  run-write_pieces zero fuel i current start (x ∷ bytes) s q e enough at d =
      absurd (omega (arith, e))
  run-write_pieces (suc n) zero i current start (x ∷ bytes) s q e enough at d =
      absurd (omega (arith, enough))
  run-write_pieces (suc n) (suc fuel) i current start (x ∷ bytes) s q e enough at d =
      let buffer : List ℕ = x ∷ bytes in
      let size : ℕ = transfer_size (length buffer) in
      let rest : List ℕ = drop size buffer in
      let least : size ≡ min (length buffer) block_bytes = transfer_size_lem (length buffer) in
      let kept : length rest ≡ length buffer - size = length-drop size buffer in
      let start' : ℕ = find_start_point first blocks start size in
      let (here, _, _) = at (omega arith) in
      let (words, got, r, answer, more) =
        subst (λ l. Delivered net handle l s.peer q)
          (sym (queries_step n i start buffer size here least)) d in
      one_turn fuel i current start x bytes words got s r q at answer (
        run-write_pieces n fuel (suc i) (current + size) start' rest (record s { peer = r }) q
          (omega (arith, e, kept, least)) (omega (arith, enough))
          (subst (At (suc i) (current + size) start') (sym kept)
            (next-At i current start (length buffer) at))
          more)

-- _write_to_IOnode of bytes from `offset` on, to consecutive blocks from `first` on that reach over
-- them, with the bound on the queries no less than the bytes take in pieces of a block each. If the
-- server answers SUCCESS, in turn, to the queries of the list `queries`, which sends the i-th piece
-- of the bytes to the i-th block, at the offset that the first piece has in the first block, the
-- call ends, returns the number of bytes, and leaves the server as these queries leave it and all
-- else as it was.
pub write_to_io_node-Delivered :
    {Peer : Type 0} (net : Network Peer) (handle : ℕ) (f : FileMeta) (blocks : Map ℕ ℕ)
    (pool : NodePool) (first fuel offset : ℕ) (bytes : List ℕ) (s : Client Peer) (q : Peer)
    → first_key blocks ≡ some first
    → first_handle pool ≡ some handle
    → Follows first blocks
    → first ≤ offset
    → offset + length bytes ≤ first + length blocks * block_bytes
    → pieces (length bytes) ≤ fuel
    → Delivered net handle
        (queries (pieces (length bytes)) f.remote_file_no first (offset - first) bytes)
        s.peer
        q
    → write_to_io_node net fuel f blocks pool bytes offset s
      ≡ returns (length bytes) (record s { peer = q })
unfolding write_to_io_node
write_to_io_node-Delivered net handle f blocks pool first fuel offset bytes s q e_first e_handle
      follows before inside enough d =
    run-bind (deref (first_key blocks)) _ first s s (run-deref (first_key blocks) first s e_first)
    ∙ run-bind (deref (first_handle pool)) _ handle s s
        (run-deref (first_handle pool) handle s e_handle)
    ∙ run-write_pieces net handle f.remote_file_no first (offset - first) blocks follows
        (pieces (length bytes)) fuel 0 offset first bytes s q refl enough
        (λ some_left. (omega arith, omega (arith, before), omega (arith, before, inside)))
        (subst
          (λ p.
            Delivered net handle
              (queries (pieces (length bytes)) f.remote_file_no p (offset - first) bytes) s.peer q)
          (no_blocks first) d)
  where
    no_blocks : (first : ℕ) → first ≡ first + 0 * block_bytes
    no_blocks first = omega arith
