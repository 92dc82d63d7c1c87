-- ===== src/IoNode/Data/Frame.antt =====
-- Blocks that are in memory, and what an operation on one block of an IOnode leaves alone.
use huron_fs.Prelude.{ℕ, ◌≡◌, refl, ◌∙◌, Bool, true, Option, none, some}
use huron_fs.Prelude.Map.{ℕ_key, ℤ_key}
use huron_fs.Prelude.Memory.{Memory}
use huron_fs.Exec.{returns}
use huron_fs.Exec.Laws.{run-bind}
use huron_fs.Swap.{AccessQueue, touch, push_page}
use huron_fs.IoNode.{IoNode, Block, BlockId}
use huron_fs.IoNode.Access.{find_block, read_block, set_block}
use huron_fs.IoNode.Access.Laws.{
  Other, run-read_block, run-put_block, find_block-set_block, find_block-set_block-Other,
}
use huron_fs.IoNode.Replacement.{track, update_access_order}

module _ {Disk : Type 0} where
  -- A block with its memory
  abbrev pub Resident : BlockId → Block → ℕ → IoNode Disk → Type 0
  Resident id b e s = (find_block id s ≡ some b) × (b.elem ≡ some e) × (b.valid ≡ true)

  -- All but one block and its memory, the pages and the tasks
  pub record Frame (id : BlockId) (s t : IoNode Disk) : Type 0 where
    pub others : (other : BlockId) → Other id other → find_block other t ≡ find_block other s
    pub output : t.output ≡ s.output
    pub disk : t.disk ≡ s.disk
    pub pool : t.pool ≡ s.pool

  pub Frame-trans :
      {id : BlockId} {r s t : IoNode Disk} → Frame id r s → Frame id s t → Frame id r t
  Frame-trans p q = record {
    others = λ other d. q.others other d ∙ p.others other d;
    output = q.output ∙ p.output;
    disk = q.disk ∙ p.disk;
    pool = q.pool ∙ p.pool;
  }

  pub set_block-Frame :
      (id : BlockId) (o b : Block) (s : IoNode Disk)
      → find_block id s ≡ some o
      → Frame id s (set_block id b s)
  set_block-Frame id o b s h = record {
    others = λ other d. find_block-set_block-Other id other o b s h d;
    output = refl;
    disk = refl;
    pool = refl;
  }

  queue-Frame :
      (id : BlockId) (q : AccessQueue BlockId) (s : IoNode Disk)
      → Frame id s (record s { queue = q })
  queue-Frame id q s = record { others = λ other d. refl; output = refl; disk = refl; pool = refl }

  pub memory-Frame :
      (id : BlockId) (m : ℕ → Memory) (s : IoNode Disk) → Frame id s (record s { memory = m })
  memory-Frame id m s = record { others = λ other d. refl; output = refl; disk = refl; pool = refl }

  -- The block keeps all but its page.
  pub record Tracked (id : BlockId) (b : Block) (s t : IoNode Disk) : Type 0 where
    pub page : Option ℕ
    pub block : find_block id t ≡ some (record b { writeback_page = page })
    pub memory : t.memory ≡ s.memory
    pub frame : Frame id s t

  track-run :
      (id : BlockId) (dirty : Bool) (b : Block) (s : IoNode Disk) (page : Option ℕ)
      → b.writeback_page ≡ page
      → find_block id s ≡ some b
      → (t : IoNode Disk) × (track id dirty b s ≡ returns tt t) × Tracked id b s t
  track-run id dirty b s (some page) e h = (
    record s { queue = touch page dirty s.queue },
    rw (track, e) refl,
    record {
      page = b.writeback_page;
      block = h;
      memory = refl;
      frame = queue-Frame id (touch page dirty s.queue) s;
    },
  )
  track-run id dirty b s none e h =
      let pushed : ℕ × AccessQueue BlockId = push_page id dirty s.queue in
      let r : IoNode Disk = record s { queue = pushed.1 } in
      let c : Block = record b { writeback_page = some pushed.0 } in
      (
        set_block id c r,
        rw (track, e) (run-put_block id b c r h),
        record {
          page = some pushed.0;
          block = find_block-set_block id b c r h;
          memory = refl;
          frame = Frame-trans (queue-Frame id pushed.1 s) (set_block-Frame id b c r h);
        },
      )

  pub update_access_order-run :
      (id : BlockId) (dirty : Bool) (b : Block) (s : IoNode Disk)
      → find_block id s ≡ some b
      → (t : IoNode Disk) × (update_access_order id dirty s ≡ returns tt t) × Tracked id b s t
  unfolding update_access_order
  update_access_order-run id dirty b s h =
      let (t, e, r) = track-run id dirty b s b.writeback_page refl h in
      (t, run-bind (read_block id) _ b s s (run-read_block id b s h) ∙ e, r)
