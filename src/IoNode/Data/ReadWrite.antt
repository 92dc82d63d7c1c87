-- ===== src/IoNode/Data/ReadWrite.antt =====
-- Blocks that are written to and read from while they are in memory.
use huron_fs.Prelude.{
  ℕ, ◌+◌, ◌≤◌, ◌≡◌, refl, ap, ◌∙◌, Bool, true, false, some, List, length, take, ltb, if◌then◌else◌,
  arith,
}
use huron_fs.Prelude.Map.{ℕ_key, ℤ_key}
use huron_fs.Prelude.Memory.{put}
use huron_fs.Block.{block_bytes}
use huron_fs.Exec.{returns, pure, fault, deref}
use huron_fs.Exec.Laws.{run-bind, run-then, run-deref}
use huron_fs.Swap.{assign}
use huron_fs.IoNode.{IoNode, System, Block, BlockId}
use huron_fs.IoNode.Access.{find_block, read_block, put_block, set_block}
use huron_fs.IoNode.Access.Laws.{run-read_block, run-put_block, find_block-set_block}
use huron_fs.IoNode.Replacement.{update_access_order}
use huron_fs.IoNode.Data.{
  part_of_block, load_for_write, load_for_read, receive_into, fill_part, fill_block,
}
use huron_fs.IoNode.Data.Frame.{
  Resident, Frame, Frame-trans, set_block-Frame, memory-Frame, update_access_order-run,
}

-- The data size of a block after a write up to `end`
abbrev grown : Block → ℕ → ℕ
grown b end = if ltb b.data_size end then end else b.data_size

pub part-all : (offset size : ℕ) → offset + size ≤ block_bytes → part_of_block offset size ≡ size
part-all offset size h = ground arith

module _ {Disk : Type 0} where
  pub run-guard :
      (c : Bool) (s : IoNode Disk) → c ≡ false → (if c then fault else pure tt) s ≡ returns tt s
  run-guard c s h = rw h refl

  receive_into-run :
      (id : BlockId) (b : Block) (e offset size : ℕ) (bytes : List ℕ) (s : IoNode Disk)
      → Resident id b e s
      → size ≤ length bytes
      → receive_into id offset size bytes s
        ≡ returns tt
            (record s { memory = assign e (put (s.memory e) offset (take size bytes)) s.memory })
  unfolding receive_into
  receive_into-run id b e offset size bytes s (h, he, hv) l =
      run-bind (read_block id) _ b s s (run-read_block id b s h)
      ∙ run-bind (deref b.elem) _ e s s (run-deref b.elem e s he)
      ∙ run-then (if ltb (length bytes) size then fault else pure tt) _ tt s s
          (run-guard (ltb (length bytes) size) s (ground (arith, l)))

  pub record Filled (id : BlockId) (e offset size : ℕ) (bytes : List ℕ) (s t : IoNode Disk)
      : Type 0 where
    pub block : Block
    pub resident : Resident id block e t
    pub dirty : block.dirty ≡ true
    pub memory : t.memory ≡ assign e (put (s.memory e) offset (take size bytes)) s.memory
    pub frame : Frame id s t

  fill_part-run :
      (id : BlockId) (b : Block) (e offset size : ℕ) (bytes : List ℕ) (s : IoNode Disk)
      → Resident id b e s
      → offset + size ≤ block_bytes
      → size ≤ length bytes
      → (t : IoNode Disk) × (fill_part id offset size bytes s ≡ returns size t)
        × Filled id e offset size bytes s t
  unfolding fill_part
  fill_part-run id b e offset size bytes s (h, he, hv) ho l =
      let b1 : Block = record b { data_size = grown b (offset + size); receiving_data = true } in
      let s1 : IoNode Disk = set_block id b1 s in
      let h1 : find_block id s1 ≡ some b1 = find_block-set_block id b b1 s h in
      let s2 : IoNode Disk = record s1 {
        memory = assign e (put (s.memory e) offset (take size bytes)) s.memory;
      } in
      let b3 : Block = record b1 { dirty = true } in
      let s3 : IoNode Disk = set_block id b3 s2 in
      let h3 : find_block id s3 ≡ some b3 = find_block-set_block id b1 b3 s2 h1 in
      let (s4, run4, w) = update_access_order-run id true b3 s3 h3 in
      let b4 : Block = record b3 { writeback_page = w.page } in
      let b5 : Block = record b4 { receiving_data = false } in
      let s5 : IoNode Disk = set_block id b5 s4 in
      (
        s5,
        run-bind (read_block id) _ b s s (run-read_block id b s h)
            ∙ run-then (if ltb block_bytes offset then fault else pure tt) _ tt s s
                (run-guard (ltb block_bytes offset) s (ground (arith, ho)))
            ∙ run-then (put_block id b1) _ tt s s1 (run-put_block id b b1 s h)
            ∙ run-then (receive_into id offset size bytes) _ tt s1 s2
                (receive_into-run id b1 e offset size bytes s1 (h1, he, hv) l)
            ∙ run-bind (read_block id) _ b1 s2 s2 (run-read_block id b1 s2 h1)
            ∙ run-then (put_block id b3) _ tt s2 s3 (run-put_block id b1 b3 s2 h1)
            ∙ run-then (update_access_order id true) _ tt s3 s4 run4
            ∙ run-bind (read_block id) _ b4 s4 s4 (run-read_block id b4 s4 w.block)
            ∙ run-then (put_block id b5) _ tt s4 s5 (run-put_block id b4 b5 s4 w.block),
        record {
          block = b5;
          resident = (find_block-set_block id b4 b5 s4 w.block, he, hv);
          dirty = refl;
          memory = w.memory;
          frame = Frame-trans (set_block-Frame id b b1 s h) (
              Frame-trans (memory-Frame id s2.memory s1) (
                Frame-trans (set_block-Frame id b1 b3 s2 h1)
                  (Frame-trans w.frame (set_block-Frame id b4 b5 s4 w.block))));
        },
      )

  pub fill_block-run :
      (id : BlockId) (b : Block) (e offset size : ℕ) (bytes : List ℕ) (s : IoNode Disk)
      → Resident id b e s
      → offset + size ≤ block_bytes
      → size ≤ length bytes
      → (t : IoNode Disk) × (fill_block id offset size bytes s ≡ returns size t)
        × Filled id e offset size bytes s t
  unfolding fill_block
  fill_block-run id b e offset size bytes s r ho l =
      let (t, run, filled) = fill_part-run id b e offset size bytes s r ho l in
      (t, ap (λ n. fill_part id offset n bytes s) (part-all offset size ho) ∙ run, filled)

module _ {Disk : Type 0} (os : System Disk) where
  pub load_for_write-Resident :
      (id : BlockId) (b : Block) (e : ℕ) (s : IoNode Disk)
      → Resident id b e s
      → load_for_write os id s ≡ returns tt s
  unfolding load_for_write
  load_for_write-Resident id b e s (h, he, hv) =
      run-bind (read_block id) _ b s s (run-read_block id b s h) ∙ rw (he, hv) refl

  pub load_for_read-Resident :
      (id : BlockId) (b : Block) (e : ℕ) (s : IoNode Disk)
      → Resident id b e s
      → load_for_read os id s ≡ returns tt s
  unfolding load_for_read
  load_for_read-Resident id b e s (h, he, hv) =
      run-bind (read_block id) _ b s s (run-read_block id b s h) ∙ rw (he, hv) refl
