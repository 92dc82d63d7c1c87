-- ===== src/IoNode/Tests.antt =====
-- An IOnode with one file, whose first block is in memory, above a storage that cannot be opened.
use huron_fs.Prelude.{
  ℕ, ◌+◌, ◌≡◌, refl, Bool, true, false, Option, none, some, [], ◌∷◌, ◌++◌, ◌==◌, if◌then◌else◌,
  arith,
}
use huron_fs.Prelude.Int.{pos}
use huron_fs.Prelude.Map.{ℕ_key, ℤ_key, path_key, find}
use huron_fs.Prelude.Memory.{slice}
use huron_fs.Block.{block_bytes}
use huron_fs.MemoryPool.{MemoryPool}
use huron_fs.Exec.{Exception, returns, throws, undefined}
use huron_fs.Swap.{
  AccessQueue, new_queue, push_page, chosen, prepare_writeback_page, push_dirty_page,
  push_dirty_between, is_in_dirty_queue, new_page, is_full, insert_after, assign,
}
use huron_fs.Swap.WriteBack.{DirtyFrom, prepare_writeback_page_lem}
use huron_fs.IoNode.{IoNode, System, File, Block, BlockId, Postponed, Directory}
use huron_fs.IoNode.Access.{find_block, success}
use huron_fs.IoNode.Access.Laws.{Other}
use huron_fs.IoNode.Replacement.{writeback, free_data}
use huron_fs.IoNode.Storage.Seek.{writeback-failed_seek}
use huron_fs.IoNode.Data.{send_data, receive_data}
use huron_fs.IoNode.Data.Frame.{Resident}
use huron_fs.IoNode.Data.Send.{data_message}
use huron_fs.IoNode.Data.RoundTrip.{send_data-receive_data}

-- A storage whose directories cannot be opened
abbrev closed_storage : System (Unit {0})
closed_storage = record {
  malloc_ok = λ n. true;
  directory = λ d path. Directory.refused;
  opens = λ d path mode. none;
  lseek = λ d path at. true;
  readv = λ d path position n. [];
  write = λ d path position bytes. none;
  connect = λ uri. 0;
}

abbrev full_pool : MemoryPool
full_pool = record {
  head = [];
  available_memory = 0;
  allocated_size = block_bytes;
  block_size = block_bytes;
  step_size = block_bytes;
  total_size = block_bytes;
  made = 1;
}

abbrev block_0 : Block
block_0 = record {
  start_point = 0;
  data_size = 4;
  elem = some 0;
  dirty = true;
  valid = true;
  swapped_out = false;
  writing_back = false;
  receiving_data = false;
  exist_flag = 0;
  postponed = Postponed.nothing;
  writeback_page = none;
}

abbrev file_7 : File
file_7 = record {
  file_path = 47 ∷ 97 ∷ [];
  exist_flag = 0;
  closed = false;
  dirty = false;
  postponed = Postponed.nothing;
  blocks = (0, block_0) ∷ [];
  io_node_pool = [];
  read_remote_fd = false;
  write_remote_fd = false;
}

abbrev one_block : IoNode (Unit {0})
one_block = record {
  my_node_id = pos 1;
  files = (pos 7, file_7) ∷ [];
  mount_point = 47 ∷ 109 ∷ [];
  handle_pool = [];
  writeback_queue = [];
  idle = true;
  pool = full_pool;
  memory = λ e i. 0;
  queue = new_queue;
  remove_file_list = [];
  open_file_count = 0;
  disk = tt;
  output = [];
  sync_tasks = [];
  remote_tasks = 0;
}

abbrev id_7 : BlockId
id_7 = (pos 7, 0)

id_7-Resident : Resident id_7 block_0 0 one_block
unfolding find
id_7-Resident = (refl, refl, refl)

send_data-receive_data_example :
    (t : IoNode (Unit {0})) × (u : IoNode (Unit {0})) × (c : Block) × (receive_data closed_storage 3
        (pos 7)
        0
        2
        3
        (5 ∷ 6 ∷ 8 ∷ [])
        one_block
      ≡ returns success t)
    × (find_block id_7 t ≡ some c)
    × (c.dirty ≡ true)
    × ((other : BlockId) → Other id_7 other → find_block other t ≡ find_block other one_block)
    × (send_data closed_storage 4 (pos 7) 0 2 3 t ≡ returns success u)
    × (u.output ≡ [] ++ data_message 4 0 2 3 ∷ [])
    × (slice (u.memory 0) 2 3 ≡ 5 ∷ 6 ∷ 8 ∷ [])
send_data-receive_data_example =
    send_data-receive_data closed_storage 3 4 id_7 block_0 0 2 3 (5 ∷ 6 ∷ 8 ∷ []) one_block
      id_7-Resident (omega arith) (omega arith) refl

-- A storage in which every seek fails
abbrev seekless_storage : System (Unit {0})
seekless_storage = record closed_storage {
  directory = λ d path. Directory.present;
  opens = λ d path mode. some tt;
  lseek = λ d path at. false;
}

writeback-failed_seek_example :
    (t : IoNode (Unit {0})) × (writeback seekless_storage id_7 one_block
      ≡ throws Exception.runtime_error t)
    × (find_block id_7 t ≡ some (record block_0 { dirty = false; writing_back = true }))
    × (t.disk ≡ tt)
    × (t.open_file_count ≡ 0 + 1)
    × (free_data id_7 t ≡ undefined)
unfolding find
writeback-failed_seek_example =
    writeback-failed_seek seekless_storage id_7 block_0 file_7 tt one_block refl refl refl refl refl
      refl (omega arith) refl refl refl

-- Two data, the second of which needs to be written back
abbrev two_pages : AccessQueue ℕ
two_pages = (push_page 31 true (push_page 30 true new_queue).1).1

abbrev second_only : ℕ → Option Bool
second_only n = if n == 31 then some true else some false

both_pages : DirtyFrom second_only two_pages 3 ((30, false) ∷ (31, true) ∷ [])
unfolding push_page push_dirty_page push_dirty_between is_in_dirty_queue new_page is_full
    insert_after new_queue assign
both_pages = (
  λ e. absurd (omega (arith, e)),
  refl,
  refl,
  (4, refl, (λ e. absurd (omega (arith, e)), refl, refl, (2, refl, refl))),
)

prepare_writeback_page_lem_example :
    prepare_writeback_page second_only (pos 2) two_pages ≡ chosen (31 ∷ [])
unfolding push_page push_dirty_page push_dirty_between is_in_dirty_queue new_page is_full
    insert_after new_queue assign
prepare_writeback_page_lem_example =
    prepare_writeback_page_lem second_only two_pages (pos 2) 3 ((30, false) ∷ (31, true) ∷ []) refl
      both_pages (omega arith)
