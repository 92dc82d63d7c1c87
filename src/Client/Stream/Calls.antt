-- ===== src/Client/Stream/Calls.antt =====
-- The calls of CBB_stream that use the buffer: flush_stream, read_stream, write_stream, seek_stream,
-- open_stream, close_stream and freebuf_stream of src/Client/src/CBB_stream.cpp.
--
-- The loops of read_stream and write_stream take at most as many turns as there are bytes left: a
-- turn moves at least one byte, unless the buffer has no room.
use huron_fs.Prelude.{
  ℕ, zero, suc, ◌+◌, ◌-◌, Bool, true, false, ◌&&◌, ◌||◌, Option, none, some, List, [], ◌∷◌, ◌++◌,
  length, take, drop, ltb, ◌==◌, if◌then◌else◌,
}
use huron_fs.Prelude.Int.{ℤ, pos}
use huron_fs.Prelude.Map.{FilePath}
use huron_fs.Prelude.Memory.{Memory, put, slice}
use huron_fs.Exec.{◌>>=◌, ◌>>◌, pure, fault, gets}
use huron_fs.Block.{get_block_start_point, min_of}
use huron_fs.Client.{M, Network}
use huron_fs.Client.Code
use huron_fs.Client.Table.{has_flag}
use huron_fs.Client.Descriptor.{get_file_size, update_file_size}
use huron_fs.Client.Retry.{client_open, client_read, client_write, client_close, client_lseek}
use huron_fs.Client.Stream.{
  StreamInfo, S, call, change, new_stream_info, cur_file_off, remaining_buffer_data_size,
  remaining_buffer_size, write_meta_update, update_meta_for_rebuf, parse_open_mode_flag,
  update_cur_buf_ptr, o_wronly, o_rdwr,
}

module _ {Peer : Type 0} where
  abbrev pub info : S Peer StreamInfo
  info = gets λ s. s.info

module _ {Peer : Type 0} (net : Network Peer) (fuel : ℕ) where
  -- CBB_stream::_flush_stream
  unfoldable pub flush_stream : S Peer ℤ
  flush_stream = do
    i ← info
    if i.buffer_flag && i.dirty_flag
        then (do
          call (update_file_size net i.fd i.file_size)
          call (client_lseek net i.fd i.buf_file_off 0)
          call (client_write net fuel i.fd (slice i.buf 0 i.buffered_data_size))
          change λ j. record j { dirty_flag = false }
          call (client_lseek net i.fd i.buffered_data_size 1)
          pure (pos 0))
        else pure (pos 0)

  -- CBB_client::read into the buffer
  unfoldable pub fill_buffer : Option (List ℕ) → S Peer ℕ
  fill_buffer none = fault
  fill_buffer (some bytes) = do
    change λ i. record i { buf = put i.buf 0 bytes }
    pure (length bytes)

  unfoldable pub read_buffer : S Peer ℕ
  read_buffer = do i ← info; got ← call (client_read net fuel i.fd i.buffer_size); fill_buffer got

  -- CBB_stream::_init_buffer_for_writing
  unfoldable pub init_buffer_for_writing : S Peer ℕ
  init_buffer_for_writing = do
    i ← info
    if ltb i.buffered_data_size i.cur_buf_off && ltb i.buf_file_off i.file_size
        then (do flush_stream; read_buffer)
        else pure 0

  -- memcpy from cur_buf_ptr and the move of cur_buf_ptr behind it
  abbrev pub take_buffered : ℕ → S Peer (List ℕ)
  take_buffered size = do
    i ← info
    update_cur_buf_ptr net size
    pure (slice i.buf i.cur_buf_off size)

  -- The loop of read_stream; the result is the bytes that it copies.
  unfoldable pub read_more : ℕ → ℕ → S Peer (List ℕ)
  read_more turns zero = pure []
  read_more zero (suc left) = fault
  read_more (suc turns) (suc left) = do
    flush_stream
    ret ← read_buffer
    if ret == 0 then pure [] else (do
      change (update_meta_for_rebuf false ret)
      i ← info
      let size : ℕ = min_of (suc left) (remaining_buffer_data_size i)
      bytes ← take_buffered size
      more ← read_more turns (suc left - size)
      pure (bytes ++ more))

  unfoldable pub read_parts : ℕ → ℕ → S Peer (Option (List ℕ))
  read_parts buffered_size unbuffered_size = do
    bytes ← take_buffered buffered_size
    more ← read_more unbuffered_size unbuffered_size
    pure (some (bytes ++ more))

  -- CBB_stream::read_stream; the result is what stands in the buffer of the caller, and none is -1.
  unfoldable pub read_buffered : ℕ → S Peer (Option (List ℕ))
  read_buffered size = do
    i ← info
    let buffered_size : ℕ = min_of (remaining_buffer_data_size i) size
    read_parts buffered_size (size - buffered_size)

  unfoldable pub read_stream : ℕ → S Peer (Option (List ℕ))
  read_stream size = do
    i ← info
    if i.buffer_flag then read_buffered size else call (client_read net fuel i.fd size)

  -- The loop of write_stream, which copies to the start of the buffer
  unfoldable pub write_more : ℕ → List ℕ → S Peer (Unit {0})
  write_more turns [] = pure tt
  write_more zero (b ∷ bytes) = fault
  write_more (suc turns) (b ∷ bytes) = do
    flush_stream
    change (update_meta_for_rebuf true 0)
    i ← info
    let size : ℕ = min_of (length (b ∷ bytes)) (remaining_buffer_size i)
    change λ j. record j { buf = put j.buf 0 (take size (b ∷ bytes)) }
    change (write_meta_update size)
    write_more turns (drop size (b ∷ bytes))

  unfoldable pub store_buffered : ℕ → List ℕ → S Peer (Option ℕ)
  store_buffered bufferable_size buffer = do
    change λ j. record j { buf = put j.buf j.cur_buf_off (take bufferable_size buffer) }
    change (write_meta_update bufferable_size)
    change λ j. record j { dirty_flag = true }
    write_more (length buffer) (drop bufferable_size buffer)
    pure (some (length buffer))

  unfoldable pub write_buffered : List ℕ → S Peer (Option ℕ)
  write_buffered buffer = do
    i ← info
    let bufferable_size : ℕ = min_of (remaining_buffer_size i) (length buffer)
    init_buffer_for_writing
    store_buffered bufferable_size buffer

  -- CBB_stream::write_stream
  unfoldable pub write_stream : List ℕ → S Peer (Option ℕ)
  write_stream buffer = do
    i ← info
    if has_flag i.open_flag o_wronly || has_flag i.open_flag o_rdwr
        then (if i.buffer_flag
            then write_buffered buffer
            else call (client_write net fuel i.fd buffer))
        else (do change λ j. record j { err = Code.ebadf }; pure (some 0))

  -- CBB_stream::seek_stream
  unfoldable pub seek_to : ℕ → S Peer (Unit {0})
  seek_to new_pos = do
    i ← info
    if ltb (i.buf_file_off + i.buffered_data_size) new_pos || ltb new_pos i.buf_file_off
        then (do
          flush_stream
          let start : ℕ = get_block_start_point new_pos
          change λ j. record j {
            buf_file_off = start;
            buffered_data_size = 0;
            cur_buf_off = new_pos - start;
          }
          call (client_lseek net i.fd start 0)
          pure tt)
        else change λ j. record j { cur_buf_off = new_pos - j.buf_file_off }

  unfoldable pub new_position : ℕ → ℕ → StreamInfo → S Peer ℕ
  new_position offset whence i =
      if whence == 0
      then pure offset
      else if whence == 1
      then pure (cur_file_off i + offset)
      else if whence == 2
      then (do size ← call (get_file_size net i.fd); pure (size + offset))
      else pure 0

  unfoldable pub seek_stream : ℕ → ℕ → S Peer ℤ
  seek_stream offset whence = do
    i ← info
    if i.buffer_flag
        then (do new_pos ← new_position offset whence i; seek_to new_pos; pure (pos new_pos))
        else call (client_lseek net i.fd offset whence)

  -- freebuf_stream and close_stream; the offset of cur_buf_ptr, which is null afterwards, stays.
  unfoldable pub freebuf_stream : S Peer (Unit {0})
  freebuf_stream = do
    i ← info
    if i.buffer_flag
        then (do flush_stream; change λ j. record j { buffer_flag = false; buffered_data_size = 0 })
        else pure tt

  unfoldable pub close_stream : S Peer ℤ
  close_stream = do flush_stream; i ← info; call (client_close net i.fd); pure (pos 0)

module _ {Peer : Type 0} (net : Network Peer) (use_buffer : Bool) (memory : Memory) where
  -- CBB_stream::open_stream with a flag; none is the null pointer.
  unfoldable pub stream_of : ℕ → ℕ → Option ℕ → M Peer (Option StreamInfo)
  stream_of flag mode none = pure none
  stream_of flag mode (some fd) = do
    file_size ← get_file_size net fd
    pure (some (new_stream_info memory use_buffer fd file_size flag mode))

  unfoldable pub open_stream : FilePath → ℕ → ℕ → M Peer (Option StreamInfo)
  open_stream path flag mode = do fd ← client_open net path flag mode; stream_of flag mode fd

  -- CBB_stream::open_stream with a mode of fopen; 438 is 0666.
  unfoldable pub open_stream_mode : FilePath → List ℕ → M Peer (Option StreamInfo)
  open_stream_mode path mode = open_stream path (parse_open_mode_flag mode 0) 438
