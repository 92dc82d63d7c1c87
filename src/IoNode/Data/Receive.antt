-- ===== src/IoNode/Data/Receive.antt =====
-- A write of bytes inside a block that is in memory.
use huron_fs.Prelude.{
  ℕ, suc, ◌+◌, ◌-◌, ◌/◌, ◌≤◌, ◌<◌, ◌≡◌, refl, ap, ◌∙◌, true, some, List, [], ◌∷◌, ◌++◌, length,
  not_zero, take, drop, arith,
}
use huron_fs.Prelude.Int.{ℤ}
use huron_fs.Prelude.Map.{ℕ_key, ℤ_key, set}
use huron_fs.Prelude.Memory.{put}
use huron_fs.Block.{block_bytes, min_of}
use huron_fs.Exec.{returns}
use huron_fs.Exec.Laws.{run-bind, run-then, run-catch_returns}
use huron_fs.Swap.{assign}
use huron_fs.IoNode.{IoNode, System, File, Block, BlockId, SyncTask}
use huron_fs.IoNode.Access.{find_block, read_file, file_at, success}
use huron_fs.IoNode.Access.Laws.{
  Other, run-read_file, find_block-file, run-file_at, find_block-put_file,
}
use huron_fs.IoNode.Data.{
  part_of_block, turns, load_for_write, provide_block, update_block_data, receive_blocks,
  write_file, receive_data,
}
use huron_fs.IoNode.Data.Frame.{Resident}
use huron_fs.IoNode.Data.ReadWrite.{part-all, load_for_write-Resident, Filled, fill_block-run}

module _ {Disk : Type 0} (os : System Disk) where
  provide_block-run :
      (id : BlockId) (size : ℕ) (b : Block) (s : IoNode Disk)
      → find_block id s ≡ some b
      → provide_block id size s ≡ returns tt s
  unfolding provide_block
  provide_block-run id size b s h =
      let f : File = (find_block-file id b s h).0 in
      run-bind (read_file id.0) _ f s s (run-read_file id.0 f s (find_block-file id b s h).1)
      ∙ rw ((find_block-file id b s h).2) refl

  pub update_block_data-run :
      (id : BlockId) (b : Block) (e offset size : ℕ) (bytes : List ℕ) (s : IoNode Disk)
      → Resident id b e s
      → offset + size ≤ block_bytes
      → size ≤ length bytes
      → (t : IoNode Disk) × (update_block_data os id offset size bytes s ≡ returns size t)
        × Filled id e offset size bytes s t
  unfolding update_block_data
  update_block_data-run id b e offset size bytes s r ho l =
      let (t, run, filled) = fill_block-run id b e offset size bytes s r ho l in
      (
        t,
        run-then (provide_block id size) _ tt s s (provide_block-run id size b s r.0)
            ∙ run-then (load_for_write os id) _ tt s s (load_for_write-Resident os id b e s r)
            ∙ run,
        filled,
      )

  receive_done :
      (fuel : ℕ) (n : ℤ) (p offset size left : ℕ) (bytes : List ℕ) (s : IoNode Disk)
      → left ≡ 0
      → receive_blocks os (suc fuel) n p offset size left bytes s ≡ returns tt s
  unfolding receive_blocks
  receive_done fuel n p offset size left bytes s h = rw h refl

  receive_one :
      (fuel : ℕ) (id : BlockId) (offset size : ℕ) (bytes : List ℕ) (s t : IoNode Disk)
      → 0 < size
      → update_block_data os id offset size bytes s ≡ returns size t
      → receive_blocks os (suc (suc fuel)) id.0 id.1 offset size size bytes s ≡ returns tt t
  unfolding receive_blocks
  receive_one fuel id offset size bytes s t h run = rw (not_zero size h) (
      run-bind (update_block_data os id offset size bytes) _ size s t run
      ∙ receive_done fuel id.0 (id.1 + (size + offset)) 0 (min_of (size - size) block_bytes)
          (size - size) (drop size bytes) t (omega arith))

  -- A block that is written to stays in memory, with the bytes in it, and other blocks and all
  -- memory but the bytes written stay as they are.
  pub record Written (id : BlockId) (e offset size : ℕ) (bytes : List ℕ) (s t : IoNode Disk)
      : Type 0 where
    pub block : Block
    pub resident : Resident id block e t
    pub dirty : block.dirty ≡ true
    pub memory : t.memory ≡ assign e (put (s.memory e) offset (take size bytes)) s.memory
    pub others : (other : BlockId) → Other id other → find_block other t ≡ find_block other s
    pub output : t.output ≡ s.output

  write_file-run :
      (client : ℕ) (id : BlockId) (b : Block) (e offset size : ℕ) (bytes : List ℕ) (s : IoNode Disk)
      → Resident id b e s
      → 0 < size
      → offset + size ≤ block_bytes
      → size ≤ length bytes
      → (t : IoNode Disk) × (write_file os client id.0 id.1 offset size bytes s ≡ returns success t)
        × Written id e offset size bytes s t
  unfolding write_file
  write_file-run client id b e offset size bytes s r pos ho l =
      let f : File = (find_block-file id b s r.0).0 in
      let (t, run, w) = update_block_data-run id b e offset size bytes s r ho l in
      let found = find_block-file id w.block t w.resident.0 in
      let g : File = found.0 in
      let u : IoNode Disk = record t { files = set id.0 (record g { dirty = true }) t.files } in
      let task : SyncTask = SyncTask.sync_write id.0 client id.1 offset size in
      (
        record u { sync_tasks = u.sync_tasks ++ task ∷ [] },
        run-bind (file_at id.0) _ f s s (run-file_at id.0 f s (find_block-file id b s r.0).1)
            ∙ run-then
                (receive_blocks os (turns size) id.0 id.1 offset (part_of_block offset size) size
                  bytes)
                _ tt s t
                (ap (λ n. receive_blocks os (turns size) id.0 id.1 offset n size bytes s)
                    (part-all offset size ho)
                  ∙ receive_one (suc (size / block_bytes)) id offset size bytes s t pos run)
            ∙ run-bind (read_file id.0) _ g t t (run-read_file id.0 g t found.1),
        record {
          block = w.block;
          resident = (
            find_block-put_file id.0 id g (record g { dirty = true }) t found.1 refl ∙ w.resident.0,
            w.resident.1,
            w.resident.2,
          );
          dirty = w.dirty;
          memory = w.memory;
          others = λ other d.
              find_block-put_file id.0 other g (record g { dirty = true }) t found.1 refl
              ∙ w.frame.others other d;
          output = w.frame.output;
        },
      )

  pub receive_data-run :
      (client : ℕ) (id : BlockId) (b : Block) (e offset size : ℕ) (bytes : List ℕ) (s : IoNode Disk)
      → Resident id b e s
      → 0 < size
      → offset + size ≤ block_bytes
      → size ≤ length bytes
      → (t : IoNode Disk) × (receive_data os client id.0 id.1 offset size bytes s
          ≡ returns success t)
        × Written id e offset size bytes s t
  unfolding receive_data
  receive_data-run client id b e offset size bytes s r pos ho l =
      let (t, run, w) = write_file-run client id b e offset size bytes s r pos ho l in
      (t, run-catch_returns (write_file os client id.0 id.1 offset size bytes) _ success s t run, w)
