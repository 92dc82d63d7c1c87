-- ===== src/IoNode/Data/Send.antt =====
-- A read of bytes inside a block that is in memory.
use huron_fs.Prelude.{
  ℕ, suc, ◌+◌, ◌-◌, ◌/◌, ◌≤◌, ◌<◌, ◌≡◌, refl, ap, ◌∙◌, false, some, [], ◌∷◌, ◌++◌, not_zero, ltb,
  if◌then◌else◌, arith,
}
use huron_fs.Prelude.Int.{ℤ}
use huron_fs.Prelude.Map.{ℕ_key, ℤ_key}
use huron_fs.Block.{block_bytes, min_of}
use huron_fs.Exec.{returns, pure, fault}
use huron_fs.Exec.Laws.{run-bind, run-then, run-catch_returns}
use huron_fs.IoNode.{IoNode, System, File, Block, BlockId, Message}
use huron_fs.IoNode.Access.{read_block, read_file, file_at, success}
use huron_fs.IoNode.Access.Laws.{run-read_block, run-read_file, find_block-file, run-file_at}
use huron_fs.IoNode.Replacement.{update_access_order}
use huron_fs.IoNode.Data.{part_of_block, turns, load_for_read, send_blocks, read_data, send_data}
use huron_fs.IoNode.Data.Frame.{Resident, Tracked, update_access_order-run}
use huron_fs.IoNode.Data.ReadWrite.{part-all, load_for_read-Resident, run-guard}

-- The message of a read of one block
abbrev pub data_message : ℕ → ℕ → ℕ → ℕ → Message
data_message client e offset size = record {
  target = client;
  body = success ∷ [];
  segments = record { elem = some e; offset = offset; size = size } ∷ [];
}

module _ {Disk : Type 0} (os : System Disk) where
  send_done :
      (fuel : ℕ) (n : ℤ) (p offset size left : ℕ) (s : IoNode Disk)
      → left ≡ 0
      → send_blocks os (suc fuel) n p offset size left s ≡ returns [] s
  unfolding send_blocks
  send_done fuel n p offset size left s h = rw h refl

  send_one :
      (fuel : ℕ) (id : BlockId) (b : Block) (e offset size : ℕ) (s : IoNode Disk)
      → Resident id b e s
      → 0 < size
      → (t : IoNode Disk) × (send_blocks os (suc (suc fuel)) id.0 id.1 offset size size s
          ≡ returns (record { elem = some e; offset = offset; size = size } ∷ []) t)
        × Tracked id b s t
  unfolding send_blocks
  send_one fuel id b e offset size s (h, he, hv) pos =
      let f : File = (find_block-file id b s h).0 in
      let (t, run, w) = update_access_order-run id false b s h in
      (
        t,
        rw (not_zero size pos) (
            run-bind (read_file id.0) _ f s s (run-read_file id.0 f s (find_block-file id b s h).1)
            ∙ rw ((find_block-file id b s h).2) (
                run-then (load_for_read os id) _ tt s s
                  (load_for_read-Resident os id b e s (h, he, hv))
                ∙ run-then (update_access_order id false) _ tt s t run
                ∙ run-bind (read_block id) _ (record b { writeback_page = w.page }) t t
                    (run-read_block id _ t w.block)
                ∙ run-bind
                    (send_blocks os (suc fuel) id.0 (id.1 + block_bytes) 0
                      (min_of (size - size) block_bytes) (size - size))
                    _ [] t t
                    (send_done fuel id.0 (id.1 + block_bytes) 0 (min_of (size - size) block_bytes)
                      (size - size) t (omega arith))
                ∙ ap (λ o. returns (record { elem = o; offset = offset; size = size } ∷ []) t) he)),
        w,
      )

  read_data-run :
      (client : ℕ) (id : BlockId) (b : Block) (e offset size : ℕ) (s : IoNode Disk)
      → Resident id b e s
      → 0 < size
      → offset + size ≤ block_bytes
      → (t : IoNode Disk) × (read_data os client id.0 id.1 offset size s ≡ returns success t)
        × (t.output ≡ s.output ++ data_message client e offset size ∷ [])
        × (t.memory ≡ s.memory)
  unfolding read_data
  read_data-run client id b e offset size s r pos ho =
      let f : File = (find_block-file id b s r.0).0 in
      let (t, run, w) = send_one (suc (size / block_bytes)) id b e offset size s r pos in
      (
        record t { output = t.output ++ data_message client e offset size ∷ [] },
        run-bind (file_at id.0) _ f s s (run-file_at id.0 f s (find_block-file id b s r.0).1)
            ∙ run-then (if ltb block_bytes offset then fault else pure tt) _ tt s s
                (run-guard (ltb block_bytes offset) s (ground (arith, ho)))
            ∙ run-bind
                (send_blocks os (turns size) id.0 id.1 offset (part_of_block offset size) size) _
                (record { elem = some e; offset = offset; size = size } ∷ []) s t
                (ap (λ n. send_blocks os (turns size) id.0 id.1 offset n size s)
                    (part-all offset size ho)
                  ∙ run),
        ap (λ o. o ++ data_message client e offset size ∷ []) w.frame.output,
        w.memory,
      )

  pub send_data-run :
      (client : ℕ) (id : BlockId) (b : Block) (e offset size : ℕ) (s : IoNode Disk)
      → Resident id b e s
      → 0 < size
      → offset + size ≤ block_bytes
      → (t : IoNode Disk) × (send_data os client id.0 id.1 offset size s ≡ returns success t)
        × (t.output ≡ s.output ++ data_message client e offset size ∷ [])
        × (t.memory ≡ s.memory)
  unfolding send_data
  send_data-run client id b e offset size s r pos ho =
      let (t, run, out, mem) = read_data-run client id b e offset size s r pos ho in
      (t, run-catch_returns (read_data os client id.0 id.1 offset size) _ success s t run, out, mem)
