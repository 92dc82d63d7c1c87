-- ===== src/Master/Failure/Lost.antt =====
-- What becomes of a file whose only node fails.
use huron_fs.Prelude.{ℕ, ◌≡◌, ◌∙◌, some, [], ◌∷◌, arith, Option-cases, inl, inr}
use huron_fs.Prelude.Int.{ℤ}
use huron_fs.Prelude.Map.{ℕ_key, ℤ_key, Map, find, erase}
use huron_fs.Master.{Master, NodeInfo, OpenFileInfo, returns, undefined}
use huron_fs.Master.Blocks.{next_key}
use huron_fs.Master.Monad.{at, read_file}
use huron_fs.Master.Monad.Laws.{run-bind, run-at, run-read_file}
use huron_fs.Master.Nodes.{wrap, advance, get_next_io_node}
use huron_fs.Master.Failure.{
  member, next_but, allocate_replace_io_node, promote, replace_node, recreate_replica,
}

-- Out of an empty set the next node is taken, whichever it is.
allocate_replace_io_node-empty :
    (s : Master) (failed k : ℕ) (n : NodeInfo) (nodes : Map ℕ NodeInfo)
    → s.registered_io_nodes ≡ (k, n) ∷ nodes
    → (id : ℕ) × (s' : Master) × (allocate_replace_io_node [] failed s ≡ returns (some id) s')
unfolding allocate_replace_io_node next_but member get_next_io_node wrap advance find
allocate_replace_io_node-empty s failed k n nodes e = elim (Option-cases s.current_io_node) [
  | inl c ↦
      (k, record s { current_io_node = next_key k s.registered_io_nodes }, rw (e, c) (ground arith))
  | inr (id, c) ↦ (
    id,
    record s { current_io_node = next_key id s.registered_io_nodes },
    rw (e, c) (ground arith),
  )
]

replace_node-empty :
    (s : Master) (a failed id : ℕ) (f : OpenFileInfo)
    → f.io_nodes_set ≡ []
    → f.primary_replica_node ≡ some failed
    → replace_node a (record f { io_nodes_set = erase failed f.io_nodes_set }) failed id s
      ≡ undefined
unfolding replace_node promote erase
replace_node-empty s a failed id f r p = rw (p, r) (ground arith)

-- When the primary of an open file without replicas fails, while at least one node is
-- registered, the loop body of _recreate_replicas reads the first node of an empty set.
pub recreate_replica-Lost :
    (s : Master) (failed a : ℕ) (file_no : ℤ) (f : OpenFileInfo) (k : ℕ) (n : NodeInfo)
    (nodes : Map ℕ NodeInfo)
    → s.registered_io_nodes ≡ (k, n) ∷ nodes
    → find file_no s.buffered_files ≡ some a
    → find a s.heap ≡ some f
    → f.io_nodes_set ≡ []
    → f.primary_replica_node ≡ some failed
    → recreate_replica failed file_no s ≡ undefined
unfolding recreate_replica
recreate_replica-Lost s failed a file_no f k n nodes e b h r p =
    let (id, s', run) = allocate_replace_io_node-empty s failed k n nodes e in
    run-bind (at (find file_no s.buffered_files)) _ a s s (run-at _ a s b)
    ∙ run-bind (read_file a) _ f s s (run-read_file s a f h)
    ∙ run-bind (allocate_replace_io_node f.io_nodes_set failed) _ (some id) s s' (rw r run)
    ∙ replace_node-empty s' a failed id f r p
