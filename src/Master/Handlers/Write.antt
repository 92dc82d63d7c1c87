-- ===== src/Master/Handlers/Write.antt =====
-- _parse_write_file of an open file.
use huron_fs.Prelude.{ℕ, ◌≤◌, ◌<◌, ◌/◌, take, drop, ◌≡◌, refl, ◌∙◌, some, [], ◌∷◌, ◌++◌}
use huron_fs.Prelude.Int.{ℤ}
use huron_fs.Prelude.Map.{ℕ_key, ℤ_key, path_key, find, set, find-set_self}
use huron_fs.Block.{max_of, block_bytes, get_block_start_point}
use huron_fs.Master.Blocks.Spec.{Tiled, end_of}
use huron_fs.Master.Blocks.Select.{rounds}
use huron_fs.Master.Blocks.Range.{select_block_set-allocate_new_blocks_for_writing}
use huron_fs.Master.{
  Master, Stat, MasterFileStat, OpenFileInfo, NodeInfo, Message, to_client, returns, success, text,
}
use huron_fs.Master.Blocks.{BlockList, allocate_new_blocks_for_writing, select_block_set}
use huron_fs.Master.Monad.{deref, read_file}
use huron_fs.Master.Monad.Laws.{
  run-bind, run-then, run-deref, run-at, run-read_file, run-catch_returns,
}
use huron_fs.Master.Send.{int, live, stat_of, counted_blocks, node_words, send_block_info}
use huron_fs.Master.Send.Laws.{run-live, run-stat_of}
use huron_fs.Master.Files.Open.{run-modify_stat}
use huron_fs.Master.Handlers.{
  file_at, receive_attr, answer_blocks, no_such_file, write_here, parse_write_file,
}

-- SUCCESS, the size of the file, the primary with its address, and the blocks
abbrev pub block_answer : ℕ → ℕ → ℕ → NodeInfo → BlockList → Message
block_answer client size id node blocks = record {
  target = to_client client;
  body = int 0 ∷ int size ∷ int 1 ∷ int id ∷ text node.uri ∷ counted_blocks blocks;
}

run-answer_blocks :
    (s : Master) (client start_point size id : ℕ) (f : OpenFileInfo) (st : MasterFileStat)
    (node : NodeInfo) (blocks : BlockList)
    → f.primary_replica_node ≡ some id
    → find id s.registered_io_nodes ≡ some node
    → find f.file_status s.file_stat_pool ≡ some st
    → select_block_set start_point size f.block_list ≡ some blocks
    → answer_blocks client start_point size f s
      ≡ returns success (record s {
        output = s.output ++ block_answer client st.status.st_size id node blocks ∷ [];
      })
unfolding answer_blocks send_block_info node_words
run-answer_blocks s client start_point size id f st node blocks ep en es eb =
    run-bind (deref f.primary_replica_node) _ id s s (run-deref f.primary_replica_node id s ep)
    ∙ run-then (live id) _ tt s s (run-live s id node en)
    ∙ run-bind (deref (select_block_set start_point size f.block_list)) _ blocks s s
        (run-deref (select_block_set start_point size f.block_list) blocks s eb)
    ∙ run-bind (stat_of f) _ st s s (run-stat_of s f st es)
    ∙ rw (node_words, en) refl

-- The file and the entry after a write.
abbrev pub written : ℕ → ℕ → OpenFileInfo → OpenFileInfo
written start_point size f = record f {
  block_list = allocate_new_blocks_for_writing start_point size f.block_list;
}

abbrev pub updated : Stat → MasterFileStat → MasterFileStat
updated new st = record st {
  status = record new { st_size = max_of new.st_size st.status.st_size };
}

-- The whole handler, where the selection of blocks succeeds
run-parse_write_file :
    (s : Master) (client a start_point size id : ℕ) (file_no : ℤ) (new : Stat) (f : OpenFileInfo)
    (st : MasterFileStat) (node : NodeInfo) (blocks : BlockList)
    → find file_no s.buffered_files ≡ some a
    → find a s.heap ≡ some f
    → find f.file_status s.file_stat_pool ≡ some st
    → f.primary_replica_node ≡ some id
    → find id s.registered_io_nodes ≡ some node
    → select_block_set start_point size (written start_point size f).block_list ≡ some blocks
    → parse_write_file client file_no new start_point size s
      ≡ returns success (record s {
        heap = set a (written start_point size f) s.heap;
        file_stat_pool = set f.file_status (updated new st) s.file_stat_pool;
        output =
            s.output ++ block_answer client (updated new st).status.st_size id node blocks ∷ [];
      })
unfolding parse_write_file write_here receive_attr
run-parse_write_file s client a start_point size id file_no new f st node blocks eb eh es ep en el =
    let f' : OpenFileInfo = written start_point size f in
    let s₁ : Master = record s {
      file_stat_pool = set f.file_status (updated new st) s.file_stat_pool;
    } in
    let s₂ : Master = record s₁ { heap = set a f' s.heap } in
    run-catch_returns (write_here client file_no new start_point size) (no_such_file client) success
      s _
      (run-bind (file_at file_no) _ a s s (run-at (find file_no s.buffered_files) a s eb)
        ∙ run-bind (read_file a) _ f s s (run-read_file s a f eh)
        ∙ run-then (receive_attr f new) _ tt s s₁
            (run-modify_stat s f.file_status (updated new) st es)
        ∙ run-bind (read_file a) _ f' s₂ s₂ (run-read_file s₂ a f' (find-set_self a f' s.heap))
        ∙ run-answer_blocks s₂ client start_point size id f' (updated new st) node blocks ep en
            (find-set_self f.file_status (updated new st) s.file_stat_pool) el)

-- A write of size > 0 bytes, to an open file with a registered primary and with consecutive blocks
-- from 0 on, no later than whose end the block of start_point starts, answers SUCCESS with the
-- larger of the two sizes, the primary and its address, and some of the blocks: from the block of
-- start_point on, as many as size bytes fill. The file gets the blocks allocated for the range, its
-- entry the status sent with the larger of the two sizes, and nothing else changes.
pub parse_write_file-Answers :
    (s : Master) (client a start_point size id : ℕ) (file_no : ℤ) (new : Stat) (f : OpenFileInfo)
    (st : MasterFileStat) (node : NodeInfo)
    → find file_no s.buffered_files ≡ some a
    → find a s.heap ≡ some f
    → find f.file_status s.file_stat_pool ≡ some st
    → f.primary_replica_node ≡ some id
    → find id s.registered_io_nodes ≡ some node
    → 0 < size
    → Tiled 0 f.block_list
    → get_block_start_point start_point ≤ end_of 0 f.block_list
    → parse_write_file client file_no new start_point size s
      ≡ returns success (record s {
        heap = set a (written start_point size f) s.heap;
        file_stat_pool = set f.file_status (updated new st) s.file_stat_pool;
        output =
            s.output
            ++ block_answer client (updated new st).status.st_size id node (
                take
                  (rounds size)
                  (drop (start_point / block_bytes) (written start_point size f).block_list))
              ∷ [];
      })
parse_write_file-Answers s client a start_point size id file_no new f st node eb eh es ep en pos t
      h =
    run-parse_write_file s client a start_point size id file_no new f st node _ eb eh es ep en
      (select_block_set-allocate_new_blocks_for_writing start_point size f.block_list pos t h)
