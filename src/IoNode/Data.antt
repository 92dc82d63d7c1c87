-- ===== src/IoNode/Data.antt =====
-- Data of clients and replicas: IOnode::update_block_data, _receive_data, _send_data, _get_sync_data,
-- _send_sync_data and the parsers of data-sync tasks of src/IOnode/src/IOnode.cpp, with replicas
-- synchronised before the answer and with a reply (STRICT_SYNC_DATA, SYNC_DATA_WITH_REPLY).
--
-- An offset past the end of its block is undefined here: the size left in the block wraps around,
-- and memory behind the block is used.
pub mod Frame
pub mod ReadWrite
pub mod Receive
pub mod Send
pub mod RoundTrip
use huron_fs.Prelude.{
  ℕ, zero, suc, ◌+◌, ◌-◌, ◌*◌, ◌/◌, ◌==◌, leb, ltb, Bool, true, false, not, ◌&&◌, ◌||◌, Option,
  none, some, List, [], ◌∷◌, ◌++◌, length, take, drop, if◌then◌else◌,
}
use huron_fs.Prelude.Int.{ℤ, pos}
use huron_fs.Prelude.Map.{ℕ_key, ℤ_key, Map, find, set}
use huron_fs.Prelude.Memory.{put}
use huron_fs.Block.{block_bytes, min_of}
use huron_fs.Master.Code
use huron_fs.Exec.{
  Exception, ◌>>=◌, ◌>>◌, pure, throw, fault, gets, modify, catch, deref, at, for_each,
}
use huron_fs.Swap.{assign}
use huron_fs.IoNode.{IoNode, System, M, File, Block, BlockId, Segment, Message, SyncTask}
use huron_fs.IoNode.Access.{
  file_at, read_file, put_file, find_block, read_block, put_block, send, reply, success, failure,
  file_not_found, existing,
}
use huron_fs.IoNode.Blocks.{new_block, need_allocation}
use huron_fs.IoNode.Storage.{read_from_storage}
use huron_fs.IoNode.Replacement.{allocate_memory_for_block, update_access_order}

-- MAX_FILE_SIZE
abbrev pub max_file_size : ℕ
max_file_size = block_bytes * 1000

-- What of `size` bytes from `offset` on lies in one block
abbrev pub part_of_block : ℕ → ℕ → ℕ
part_of_block offset size = if ltb block_bytes (offset + size) then block_bytes - offset else size

-- The turns of a loop over the blocks of a range
abbrev pub turns : ℕ → ℕ
turns size = suc (suc (suc (size / block_bytes)))

unfoldable pub all_blocks : Map ℕ Block → List Block
all_blocks [] = []
all_blocks ((_, b) ∷ m) = b ∷ all_blocks m

-- The blocks from one that is there on
unfoldable pub blocks_from : ℕ → Map ℕ Block → List Block
blocks_from start_point [] = []
blocks_from start_point ((p, b) ∷ m) =
    let rest : List Block = blocks_from start_point m in
    if p == start_point then b ∷ all_blocks m else rest

-- The loop of IOnode::_send_sync_data over the blocks: the data of each, while bytes are wanted
unfoldable pub sync_segments : ℕ → List Block → List Segment
sync_segments size [] = []
sync_segments size (b ∷ bs) =
    let rest : List Segment = sync_segments (size - b.data_size) bs in
    if size == 0 then [] else record { elem = b.elem; offset = 0; size = b.data_size } ∷ rest

unfoldable pub total_size : List Segment → ℕ
total_size [] = 0
total_size (g ∷ gs) = g.size + total_size gs

-- The nodes of a pool
abbrev pub nodes_of : Map ℤ (Unit {0}) → List ℤ
nodes_of [] = []
nodes_of ((n, _) ∷ m) = n ∷ nodes_of m

module _ {Disk : Type 0} where
  -- IOnode::_send_sync_data, to the handle of a replica
  unfoldable pub send_sync_data : ℤ → ℕ → ℕ → ℕ → ℤ → M Disk (Unit {0})
  send_sync_data file_no start_point offset size node = do
    f ← read_file file_no
    h ← gets (λ s. find node s.handle_pool)
    handle ← deref h
    let segments : List Segment = sync_segments size (blocks_from start_point f.blocks)
    send (record {
      target = handle;
      body =
          pos Code.data_sync
          ∷ file_no
          ∷ pos start_point
          ∷ pos offset
          ∷ pos (total_size segments)
          ∷ [];
      segments = segments;
    })

  -- IOnode::_sync_init_data and _sync_write_data. The replies of the replicas are awaited, and
  -- change nothing here.
  unfoldable pub data_sync_parser : SyncTask → M Disk (Unit {0})
  data_sync_parser (SyncTask.sync_init file_no node) = do
    f ← read_file file_no
    (if f.dirty then send_sync_data file_no 0 0 max_file_size node else pure tt)
  data_sync_parser (SyncTask.sync_write file_no client start_point offset size) = do
    f ← read_file file_no
    for_each (nodes_of f.io_node_pool) (send_sync_data file_no start_point offset size)
    reply client success

  -- add_data_sync_task
  abbrev pub add_sync_task : SyncTask → M Disk (Unit {0})
  add_sync_task t = modify λ s. record s { sync_tasks = s.sync_tasks ++ t ∷ [] }

  -- blocks.at(start_point), or the block that is inserted where there is none
  unfoldable pub provide_block : BlockId → ℕ → M Disk (Unit {0})
  provide_block id size = do
    f ← read_file id.0
    (elim (find id.1 f.blocks) [
      | some _ ↦ pure tt
      | none ↦
          put_file id.0
            (record f { blocks = set id.1 (new_block id.1 size false f.exist_flag) f.blocks })
    ])

  -- get_received_data into a block's memory: a memcpy from the message
  unfoldable pub receive_into : BlockId → ℕ → ℕ → List ℕ → M Disk (Unit {0})
  receive_into id offset size bytes = do
    b ← read_block id
    e ← deref b.elem
    (if ltb (length bytes) size then fault else pure tt)
    modify λ s. record s { memory = assign e (put (s.memory e) offset (take size bytes)) s.memory }

  -- catch (std::out_of_range& e)
  abbrev pub on_missing : {A : Type 0} → M Disk A → Exception → M Disk A
  on_missing handler Exception.out_of_range = handler
  on_missing handler e = throw e

  -- From the memory on: IOnode::update_block_data with TCP, where the transfer ends at once
  -- of `part` bytes
  unfoldable pub fill_part : BlockId → ℕ → ℕ → List ℕ → M Disk ℕ
  fill_part id offset part bytes = do
    b ← read_block id
    (if ltb block_bytes offset then fault else pure tt)
    put_block id (record b {
      data_size = if ltb b.data_size (offset + part) then offset + part else b.data_size;
      receiving_data = true;
    })
    receive_into id offset part bytes
    b ← read_block id
    put_block id (record b { dirty = true })
    update_access_order id true
    b ← read_block id
    put_block id (record b { receiving_data = false })
    pure part

  unfoldable pub fill_block : BlockId → ℕ → ℕ → List ℕ → M Disk ℕ
  fill_block id offset size bytes = fill_part id offset (part_of_block offset size) bytes

  module _ (os : System Disk) where
    -- The memory of a block that is written to
    unfoldable pub load_for_write : BlockId → M Disk (Unit {0})
    load_for_write id = do
      b ← read_block id
      (if not (need_allocation b) then pure tt else do
        f ← read_file id.0
        _ ← allocate_memory_for_block os id
        b ← read_block id
        (if (f.exist_flag == existing) || b.swapped_out
            then (do
              size ← read_from_storage os id
              b ← read_block id
              put_block id (record b { data_size = size; swapped_out = false }))
            else pure tt)
        b ← read_block id
        put_block id (record b { valid = true }))

    -- The memory of a block that is read from
    unfoldable pub load_for_read : BlockId → M Disk (Unit {0})
    load_for_read id = do
      b ← read_block id
      (if not (need_allocation b) then pure tt else do
        _ ← allocate_memory_for_block os id
        b ← read_block id
        (if (b.exist_flag == existing) || b.swapped_out
            then (do
              _ ← read_from_storage os id
              b ← read_block id
              put_block id (record b { swapped_out = false }))
            else pure tt))

    -- IOnode::update_block_data; the result is the number of bytes taken.
    unfoldable pub update_block_data : BlockId → ℕ → ℕ → List ℕ → M Disk ℕ
    update_block_data id offset size bytes = do
      provide_block id size
      load_for_write id
      fill_block id offset size bytes

    -- The loop of IOnode::_receive_data, over the bytes of the message
    unfoldable pub receive_blocks : ℕ → ℤ → ℕ → ℕ → ℕ → ℕ → List ℕ → M Disk (Unit {0})
    receive_blocks zero file_no start_point offset size remaining bytes = fault
    receive_blocks (suc fuel) file_no start_point offset size remaining bytes =
        if remaining == 0 then pure tt else do
          taken ← update_block_data (file_no, start_point) offset size bytes
          receive_blocks fuel file_no (start_point + (taken + offset)) 0
              (min_of (remaining - taken) block_bytes) (remaining - taken) (drop taken bytes)

    -- The try block of IOnode::_receive_data
    unfoldable pub write_file : ℕ → ℤ → ℕ → ℕ → ℕ → List ℕ → M Disk ℤ
    write_file client file_no start_point offset size bytes = do
      _ ← file_at file_no
      receive_blocks (turns size) file_no start_point offset (part_of_block offset size) size bytes
      f ← read_file file_no
      put_file file_no (record f { dirty = true })
      add_sync_task (SyncTask.sync_write file_no client start_point offset size)
      pure success

    -- IOnode::_receive_data
    unfoldable pub receive_data : ℕ → ℤ → ℕ → ℕ → ℕ → List ℕ → M Disk ℤ
    receive_data client file_no start_point offset size bytes =
        catch (write_file client file_no start_point offset size bytes)
          (on_missing (do reply client file_not_found; pure failure))

    -- The loop of IOnode::_send_data: the pieces of memory to send
    unfoldable pub send_blocks : ℕ → ℤ → ℕ → ℕ → ℕ → ℕ → M Disk (List Segment)
    send_blocks zero file_no start_point offset size remaining = fault
    send_blocks (suc fuel) file_no start_point offset size remaining =
        if remaining == 0 then pure [] else do
          f ← read_file file_no
          (elim (find start_point f.blocks) [
            | none ↦ pure []
            | some _ ↦ do
              load_for_read (file_no, start_point)
              update_access_order (file_no, start_point) false
              b ← read_block (file_no, start_point)
              rest ←
                  send_blocks fuel file_no (start_point + block_bytes) 0
                    (min_of (remaining - size) block_bytes) (remaining - size)
              pure (record { elem = b.elem; offset = offset; size = size } ∷ rest)
          ])

    -- The try block of IOnode::_send_data
    unfoldable pub read_data : ℕ → ℤ → ℕ → ℕ → ℕ → M Disk ℤ
    read_data client file_no start_point offset size = do
      _ ← file_at file_no
      (if ltb block_bytes offset then fault else pure tt)
      segments ←
          send_blocks (turns size) file_no start_point offset (part_of_block offset size) size
      send (record { target = client; body = success ∷ []; segments = segments })
      pure success

    -- IOnode::_send_data
    unfoldable pub send_data : ℕ → ℤ → ℕ → ℕ → ℕ → M Disk ℤ
    send_data client file_no start_point offset size =
        catch (read_data client file_no start_point offset size)
          (on_missing (do reply client file_not_found; pure failure))

    -- The loop of IOnode::_get_sync_data
    unfoldable pub sync_blocks : ℕ → ℤ → ℕ → ℕ → List ℕ → M Disk (Unit {0})
    sync_blocks zero file_no start_point size bytes = fault
    sync_blocks (suc fuel) file_no start_point size bytes = if size == 0 then pure tt else do
      taken ← update_block_data (file_no, start_point) 0 (min_of size block_bytes) bytes
      sync_blocks fuel file_no (start_point + min_of size block_bytes) (size - taken)
          (drop taken bytes)

    -- The try block of IOnode::_get_sync_data
    unfoldable pub take_sync_data : ℕ → ℤ → ℕ → ℕ → List ℕ → M Disk ℤ
    take_sync_data node file_no start_point size bytes = do
      _ ← file_at file_no
      sync_blocks (turns size) file_no start_point size bytes
      reply node success
      pure success

    -- IOnode::_get_sync_data; the offset of the message is not used.
    unfoldable pub get_sync_data : ℕ → ℤ → ℕ → ℕ → ℕ → List ℕ → M Disk ℤ
    get_sync_data node file_no start_point offset size bytes =
        catch (take_sync_data node file_no start_point size bytes)
          (on_missing (do reply node file_not_found; pure failure))
