-- ===== src/IoNode/Data/RoundTrip.antt =====
-- What a client writes to a block it reads from there again.
use huron_fs.Prelude.{
  ℕ, ◌+◌, ◌≤◌, ◌<◌, ◌≡◌, ap, ◌∙◌, sym, true, some, List, [], ◌∷◌, ◌++◌, length, take, take_all,
  arith,
}
use huron_fs.Prelude.Map.{ℕ_key, ℤ_key}
use huron_fs.Prelude.Memory.{Memory, put, slice, slice-put}
use huron_fs.Block.{block_bytes}
use huron_fs.Exec.{returns}
use huron_fs.Swap.{assign_self}
use huron_fs.IoNode.{IoNode, System, Block, BlockId}
use huron_fs.IoNode.Access.{find_block, success}
use huron_fs.IoNode.Access.Laws.{Other}
use huron_fs.IoNode.Data.{receive_data, send_data}
use huron_fs.IoNode.Data.Frame.{Resident}
use huron_fs.IoNode.Data.Receive.{receive_data-run}
use huron_fs.IoNode.Data.Send.{data_message, send_data-run}

bytes_there :
    (m : Memory) (offset size : ℕ) (bytes : List ℕ)
    → length bytes ≡ size
    → slice (put m offset (take size bytes)) offset size ≡ bytes
bytes_there m offset size bytes l =
    ap (λ x. slice (put m offset x) offset size) (take_all size bytes l)
    ∙ ap (slice (put m offset bytes) offset) (sym l)
    ∙ slice-put m offset bytes

module _ {Disk : Type 0} (os : System Disk) where
  -- A write of bytes inside a block that is in memory, and a read of the same range after it, both
  -- succeed. The answer to the read is SUCCESS with one piece of memory, in which the bytes
  -- written stand; the block is dirty between the two, and the write changes no other block.
  pub send_data-receive_data :
      (writer reader : ℕ) (id : BlockId) (b : Block) (e offset size : ℕ) (bytes : List ℕ)
      (s : IoNode Disk)
      → Resident id b e s
      → 0 < size
      → offset + size ≤ block_bytes
      → length bytes ≡ size
      → (t : IoNode Disk) × (u : IoNode Disk) × (c : Block) × (receive_data os writer id.0 id.1
            offset size bytes s
          ≡ returns success t)
        × (find_block id t ≡ some c)
        × (c.dirty ≡ true)
        × ((other : BlockId) → Other id other → find_block other t ≡ find_block other s)
        × (send_data os reader id.0 id.1 offset size t ≡ returns success u)
        × (u.output ≡ s.output ++ data_message reader e offset size ∷ [])
        × (slice (u.memory e) offset size ≡ bytes)
  send_data-receive_data writer reader id b e offset size bytes s r pos ho l =
      let (t, run, w) =
        receive_data-run os writer id b e offset size bytes s r pos ho (omega (arith, l)) in
      let (u, run', out, mem) =
        send_data-run os reader id w.block e offset size t w.resident pos ho in
      (
        t,
        u,
        w.block,
        run,
        w.resident.0,
        w.dirty,
        w.others,
        run',
        out ∙ ap (λ o. o ++ data_message reader e offset size ∷ []) w.output,
        ap (λ m. slice (m e) offset size) (mem ∙ w.memory)
            ∙ ap (λ m. slice m offset size)
                (assign_self e (put (s.memory e) offset (take size bytes)) s.memory)
            ∙ bytes_there (s.memory e) offset size bytes l,
      )
