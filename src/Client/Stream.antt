-- ===== src/Client/Stream.antt =====
-- Buffered streams: src/Client/include/CBB_stream.h and src/Client/src/CBB_stream.cpp.
--
-- An operation works on one stream and the client below it. The buffer of a stream is its own
-- memory, and cur_buf_ptr the offset in it; the pool that a buffer comes from is left out. A
-- read of the client that fails while a buffer is filled is undefined here, and so is a position
-- before the buffer. A seek has a nonnegative offset.
pub mod Calls
pub mod RoundTrip
use huron_fs.Prelude.{
  ℕ, zero, suc, ◌+◌, ◌-◌, ◌*◌, Bool, true, false, not, ◌&&◌, ◌||◌, Option, none, some, List, [],
  ◌∷◌, ◌++◌, length, take, drop, ltb, leb, ◌==◌, if◌then◌else◌,
}
use huron_fs.Prelude.Int.{ℤ, pos}
use huron_fs.Prelude.Map.{FilePath}
use huron_fs.Prelude.Memory.{Memory, put, slice}
use huron_fs.Exec.{
  Exec, Outcome, returns, throws, undefined, ◌>>=◌, ◌>>◌, pure, fault, gets, modify,
}
use huron_fs.Block.{get_block_start_point, min_of}
use huron_fs.Client.{Client, M, Network}
use huron_fs.Client.Code
use huron_fs.Client.Table.{has_flag}
use huron_fs.Client.Descriptor.{get_file_size, update_file_size}
use huron_fs.Client.Retry.{
  client_open, client_read, client_write, client_close, client_lseek, client_tell, client_ftruncate,
}

-- STREAM_BUFFER_SIZE
abbrev pub stream_buffer_size : ℕ
stream_buffer_size = 1048576

-- O_WRONLY, O_RDWR and O_TRUNC
abbrev pub o_wronly : ℕ
o_wronly = 1

abbrev pub o_rdwr : ℕ
o_rdwr = 2

abbrev pub o_trunc : ℕ
o_trunc = 512

-- CBB_stream::stream_info; `cur_buf_off` is cur_buf_ptr - buf.
pub record StreamInfo : Type 0 where
  pub dirty_flag : Bool
  pub buffer_flag : Bool
  pub fd : ℕ
  pub err : ℕ
  pub open_flag : ℕ
  pub open_mode : ℕ
  pub buf : Memory
  pub cur_buf_off : ℕ
  pub buffer_size : ℕ
  pub buffered_data_size : ℕ
  pub file_size : ℕ
  pub buf_file_off : ℕ

-- The constructor of stream_info
unfoldable pub new_stream_info : Memory → Bool → ℕ → ℕ → ℕ → ℕ → StreamInfo
new_stream_info buf buffer_flag fd file_size open_flag open_mode = record {
  dirty_flag = false;
  buffer_flag = buffer_flag;
  fd = fd;
  err = 0;
  open_flag = open_flag;
  open_mode = open_mode;
  buf = buf;
  cur_buf_off = 0;
  buffer_size = stream_buffer_size;
  buffered_data_size = 0;
  file_size = file_size;
  buf_file_off = 0;
}

-- _cur_file_off, _remaining_buffer_data_size and _remaining_buffer_size
abbrev pub cur_file_off : StreamInfo → ℕ
cur_file_off i = i.buf_file_off + i.cur_buf_off

abbrev pub remaining_buffer_data_size : StreamInfo → ℕ
remaining_buffer_data_size i =
    if ltb i.buffered_data_size i.cur_buf_off
    then i.buffered_data_size
    else i.buffered_data_size - i.cur_buf_off

abbrev pub remaining_buffer_size : StreamInfo → ℕ
remaining_buffer_size i = i.buffer_size - i.cur_buf_off

-- stream_info::_write_meta_update
unfoldable pub write_meta_update : ℕ → StreamInfo → StreamInfo
write_meta_update write_size i =
    let cur : ℕ = i.cur_buf_off + write_size in
    record i {
      cur_buf_off = cur;
      buffered_data_size = if ltb i.buffered_data_size cur then cur else i.buffered_data_size;
      file_size =
          if ltb i.file_size (i.buf_file_off + cur) then i.buf_file_off + cur else i.file_size;
    }

-- stream_info::_update_meta_for_rebuf
unfoldable pub update_meta_for_rebuf : Bool → ℕ → StreamInfo → StreamInfo
update_meta_for_rebuf dirty size i =
    let start : ℕ = i.buf_file_off + i.buffered_data_size in
    record i {
      buf_file_off = start;
      dirty_flag = dirty;
      buffered_data_size = size;
      file_size = if ltb i.file_size (start + size) then start + size else i.file_size;
      cur_buf_off = if leb i.buffer_size i.cur_buf_off then 0 else i.cur_buf_off;
    }

-- CBB_stream::_parse_open_mode_flag: a flag or-ed in, by the letters of a mode
abbrev pub or_flag : ℕ → ℕ → ℕ
or_flag flags bit = if has_flag flags bit then flags else flags + bit

unfoldable pub parse_open_mode_flag : List ℕ → ℕ → ℕ
parse_open_mode_flag [] flags = flags
parse_open_mode_flag (c ∷ mode) flags = parse_open_mode_flag mode (
    if c == 119
    then or_flag (or_flag (or_flag flags o_wronly) Code.o_creat) o_trunc
    else if c == 97
    then or_flag flags Code.o_append
    else if c == 43
    then or_flag flags o_rdwr
    else flags)

-- stream_info::_update_file_size and _update_cur_buf_ptr
unfoldable pub advanced : ℕ → ℕ → StreamInfo → Option StreamInfo
advanced known update_size i =
    let size : ℕ = if ltb i.file_size known then known else i.file_size in
    if ltb size (update_size + cur_file_off i)
    then if ltb size i.buf_file_off
      then none
      else some (record i { file_size = size; cur_buf_off = size - i.buf_file_off })
    else some (record i { file_size = size; cur_buf_off = i.cur_buf_off + update_size })

-- What truncate_stream does to the buffer
unfoldable pub truncated : ℕ → StreamInfo → StreamInfo
truncated size i =
    if i.buffer_flag && ltb size (cur_file_off i)
    then (let start : ℕ = if ltb size i.buf_file_off then size else i.buf_file_off in
        if ltb (size - start) i.buffered_data_size
        then (record i {
          buf_file_off = start;
          buffered_data_size = size - start;
          cur_buf_off = size - start;
        })
        else record i { buf_file_off = start })
    else i

-- A stream with the client
pub record Stream (Peer : Type 0) : Type 0 where
  pub client : Client Peer
  pub info : StreamInfo

abbrev pub S : Type 0 → Type 0 → Type 0
S Peer A = Exec (Stream Peer) A

module _ {Peer : Type 0} where
  -- A call of the client
  abbrev pub with_info :
      {A : Type 0} → StreamInfo → Outcome (Client Peer) A → Outcome (Stream Peer) A
  with_info i (returns a c) = returns a (record { client = c; info = i })
  with_info i (throws e c) = throws e (record { client = c; info = i })
  with_info i undefined = undefined

  abbrev pub call : {A : Type 0} → M Peer A → S Peer A
  call m s = with_info s.info (m s.client)

  abbrev pub change : (StreamInfo → StreamInfo) → S Peer (Unit {0})
  change f = modify λ s. record s { info = f s.info }

  -- setbuf_stream, clearerr_stream, error_stream, fileno_stream and eof_stream
  unfoldable pub setbuf_stream : Memory → S Peer (Unit {0})
  setbuf_stream buf =
      change λ i.
        if i.buffer_flag then i else record i { buf = buf; buffer_flag = true; cur_buf_off = 0 }

  unfoldable pub clearerr_stream : S Peer (Unit {0})
  clearerr_stream = change λ i. record i { err = 0 }

  unfoldable pub error_stream : S Peer ℕ
  error_stream = gets λ s. s.info.err

  unfoldable pub fileno_stream : S Peer ℕ
  fileno_stream = gets λ s. s.info.fd

  unfoldable pub eof_stream : S Peer Bool
  eof_stream = gets λ s. not (ltb (cur_file_off s.info) s.info.file_size)

  module _ (net : Network Peer) where
    unfoldable pub put_advanced : Option StreamInfo → S Peer (Unit {0})
    put_advanced none = fault
    put_advanced (some i) = change λ j. i

    unfoldable pub update_cur_buf_ptr : ℕ → S Peer (Unit {0})
    update_cur_buf_ptr update_size = do
      fd ← gets λ s. s.info.fd
      known ← call (get_file_size net fd)
      after ← gets λ s. advanced known update_size s.info
      put_advanced after

    -- update_underlying_file_size
    unfoldable pub update_underlying_file_size : S Peer (Unit {0})
    update_underlying_file_size = do
      i ← gets λ s. s.info
      call (update_file_size net i.fd i.file_size)
      pure tt

    -- tell_stream
    unfoldable pub tell_stream : S Peer ℕ
    tell_stream = do
      i ← gets λ s. s.info
      if i.buffer_flag then pure (cur_file_off i) else call (client_tell net i.fd)

    -- truncate_stream
    unfoldable pub truncate_stream : ℕ → S Peer ℤ
    truncate_stream size = do
      change λ i. truncated size (record i { file_size = size })
      i ← gets λ s. s.info
      call (client_ftruncate net i.fd size)
