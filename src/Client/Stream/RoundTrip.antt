-- ===== src/Client/Stream/RoundTrip.antt =====
-- Writes to the buffer of a stream, and reads from it, of src/Client/src/CBB_stream.cpp.
use huron_fs.Prelude.{
  ℕ, ◌+◌, ◌-◌, ◌≤◌, ◌≡◌, refl, ap, ◌∙◌, Bool, true, false, ◌&&◌, ◌||◌, some, List, [], ◌∷◌, ◌++◌,
  append-nil, length, take, drop, take_all, ltb, if◌then◌else◌, arith,
}
use huron_fs.Prelude.Int.{pos}
use huron_fs.Prelude.Map.{ℕ_key, find}
use huron_fs.Prelude.Memory.{put, slice, slice-put}
use huron_fs.Exec.{returns, ◌>>=◌, pure, gets}
use huron_fs.Exec.Laws.{run-bind, run-then, run-if_true, run-if_false}
use huron_fs.Block.{min_of}
use huron_fs.Client.{Client, Network, FileMeta, OpenedFileInfo}
use huron_fs.Client.Query.{check_init}
use huron_fs.Client.Query.Laws.{run-check_init}
use huron_fs.Client.Table.{opened_at, read_meta, has_flag, fid_to_fd}
use huron_fs.Client.Table.Run.{run-opened_at, run-read_meta}
use huron_fs.Client.Descriptor.{get_file_size}
use huron_fs.Client.Stream.{
  StreamInfo, Stream, call, with_info, cur_file_off, remaining_buffer_data_size, write_meta_update,
  advanced, put_advanced, update_cur_buf_ptr, o_wronly, o_rdwr,
}
use huron_fs.Client.Stream.Calls.{
  init_buffer_for_writing, write_more, store_buffered, write_buffered, write_stream, seek_to,
  new_position, seek_stream, take_buffered, read_more, read_parts, read_buffered, read_stream,
}

if_no : {A : Type 0} (a b : A) (c : Bool) → c ≡ false → (if c then a else b) ≡ b
if_no a b c h = rw h refl

-- The stream after bytes have been put into its buffer
abbrev written : List ℕ → StreamInfo → StreamInfo
written bytes i =
    record (write_meta_update (length bytes) (record i { buf = put i.buf i.cur_buf_off bytes })) {
      dirty_flag = true;
    }

-- The stream after `n` bytes have been read from its buffer
abbrev passed : ℕ → ℕ → StreamInfo → StreamInfo
passed known n i = record i {
  file_size = if ltb i.file_size known then known else i.file_size;
  cur_buf_off = i.cur_buf_off + n;
}

advanced-Within :
    (known n : ℕ) (i : StreamInfo)
    → n + cur_file_off i ≤ i.file_size
    → advanced known n i ≡ some (passed known n i)
unfolding advanced
advanced-Within known n i h =
    let size : ℕ = if ltb i.file_size known then known else i.file_size in
    let large : n + cur_file_off i ≤ size = ground (arith, h) in
    if_no _ _ (ltb size (n + cur_file_off i)) (ground (arith, large))

drop_all : (xs : List ℕ) → drop (length xs) xs ≡ []
drop_all [] = refl
drop_all (x ∷ xs) = drop_all xs

module _ {Peer : Type 0} (net : Network Peer) (fuel : ℕ) where
  run-store_buffered :
      (bytes : List ℕ) (s : Stream Peer)
      → store_buffered net fuel (length bytes) bytes s
        ≡ returns (some (length bytes)) (record s { info = written bytes s.info })
  unfolding store_buffered write_more
  run-store_buffered bytes s =
      let st : List ℕ → Stream Peer = λ l. record s {
        info =
            record (write_meta_update (length bytes)
              (record s.info { buf = put s.info.buf s.info.cur_buf_off l })) { dirty_flag = true };
      } in
      run-then (write_more net fuel (length bytes) (drop (length bytes) bytes)) _ tt
        (st (take (length bytes) bytes)) (st (take (length bytes) bytes))
        (ap (λ l. write_more net fuel (length bytes) l (st (take (length bytes) bytes)))
          (drop_all bytes))
      ∙ ap (λ l. returns (some (length bytes)) (st l)) (take_all (length bytes) bytes refl)

  run-write_stream :
      (bytes : List ℕ) (s : Stream Peer)
      → s.info.buffer_flag ≡ true
      → (has_flag s.info.open_flag o_wronly || has_flag s.info.open_flag o_rdwr) ≡ true
      → s.info.cur_buf_off ≤ s.info.buffered_data_size
      → s.info.cur_buf_off + length bytes ≤ s.info.buffer_size
      → write_stream net fuel bytes s
        ≡ returns (some (length bytes)) (record s { info = written bytes s.info })
  unfolding write_stream write_buffered init_buffer_for_writing
  run-write_stream bytes s buffered writable within room =
      run-if_true _ _ _ s writable
      ∙ run-if_true s.info.buffer_flag _ _ s buffered
      ∙ run-then (init_buffer_for_writing net fuel) _ 0 s s (
          run-if_false
            (ltb s.info.buffered_data_size s.info.cur_buf_off
              && ltb s.info.buf_file_off s.info.file_size)
            _ _ s (ground (arith, within)))
      ∙ ap (λ b. store_buffered net fuel b bytes s) (ground (arith, room))
      ∙ run-store_buffered bytes s

  -- A seek inside the buffer
  run-seek_stream :
      (new_pos : ℕ) (s : Stream Peer)
      → s.info.buffer_flag ≡ true
      → s.info.buf_file_off ≤ new_pos
      → new_pos ≤ s.info.buf_file_off + s.info.buffered_data_size
      → seek_stream net fuel new_pos 0 s
        ≡ returns
            (pos new_pos)
            (record s { info = record s.info { cur_buf_off = new_pos - s.info.buf_file_off } })
  unfolding seek_stream new_position seek_to
  run-seek_stream new_pos s buffered low high =
      let t : Stream Peer = record s {
        info = record s.info { cur_buf_off = new_pos - s.info.buf_file_off };
      } in
      run-if_true s.info.buffer_flag _ _ s buffered
      ∙ run-then (seek_to net fuel new_pos) (pure (pos new_pos)) tt s t (
          run-if_false
            (ltb (s.info.buf_file_off + s.info.buffered_data_size) new_pos
              || ltb new_pos s.info.buf_file_off)
            _ _ s (ground (arith, low, high)))

  run-get_file_size :
      (fid : ℕ) (file : OpenedFileInfo) (f : FileMeta) (c : Client Peer)
      → c.thread_started ≡ true
      → find fid c.file_list ≡ some file
      → find file.file_meta c.heap ≡ some f
      → get_file_size net (fid_to_fd fid) c ≡ returns f.file_stat.st_size c
  unfolding get_file_size
  run-get_file_size fid file f c started found here =
      run-then (check_init net) _ tt c c (run-check_init net c started)
      ∙ run-bind (opened_at (fid_to_fd fid)) _ file c c (run-opened_at fid file c found)
      ∙ run-bind (read_meta file.file_meta) _ f c c (run-read_meta file.file_meta f c here)

  module _ (fid : ℕ) (file : OpenedFileInfo) (f : FileMeta) where
    -- A read of bytes that are in the buffer
    run-read_stream :
        (n : ℕ) (s : Stream Peer)
        → s.client.thread_started ≡ true
        → find fid s.client.file_list ≡ some file
        → find file.file_meta s.client.heap ≡ some f
        → s.info.fd ≡ fid_to_fd fid
        → s.info.buffer_flag ≡ true
        → s.info.cur_buf_off + n ≤ s.info.buffered_data_size
        → n + cur_file_off s.info ≤ s.info.file_size
        → read_stream net fuel n s
          ≡ returns
              (some (slice s.info.buf s.info.cur_buf_off n))
              (record s { info = passed f.file_stat.st_size n s.info })
    unfolding read_stream read_buffered read_parts read_more update_cur_buf_ptr put_advanced
    run-read_stream n s started found here fd buffered inside sized =
        let known : ℕ = f.file_stat.st_size in
        let t : Stream Peer = record s { info = passed known n s.info } in
        let bytes : List ℕ = slice s.info.buf s.info.cur_buf_off n in
        let all : min_of (remaining_buffer_data_size s.info) n ≡ n = ground (arith, inside) in
        let none_left : n - n ≡ 0 = omega arith in
        let update : update_cur_buf_ptr net n s ≡ returns tt t =
          run-bind (call (get_file_size net s.info.fd))
            (λ size. (gets λ r. advanced size n r.info) >>= put_advanced net) known s s
            (ap (λ fd'. with_info s.info (get_file_size net fd' s.client)) fd
              ∙ ap (with_info s.info) (run-get_file_size fid file f s.client started found here))
          ∙ ap (λ o. put_advanced net o s) (advanced-Within known n s.info sized) in
        run-if_true s.info.buffer_flag _ _ s buffered
        ∙ ap (λ b. read_parts net fuel b (n - b) s) all
        ∙ ap (λ left. read_parts net fuel n left s) none_left
        ∙ run-bind (take_buffered net fuel n)
            (λ got. read_more net fuel 0 0 >>= λ more. pure (some (got ++ more))) bytes s t
            (run-then (update_cur_buf_ptr net n) (pure bytes) tt s t update)
        ∙ ap (λ l. returns (some l) t) (append-nil bytes)

-- write_stream, seek_stream back to where it wrote, and read_stream of as many bytes give the bytes
-- back, where the stream is buffered and open for writing, its position is within the data in the
-- buffer, the bytes fit the rest of the buffer, and its descriptor is open in a registered client.
-- All three succeed, the position is behind the bytes after the write and after the read, and the
-- client has not been touched.
pub read_stream-write_stream :
    {Peer : Type 0} (net : Network Peer) (fuel fid : ℕ) (file : OpenedFileInfo) (f : FileMeta)
    (bytes : List ℕ) (s : Stream Peer)
    → s.client.thread_started ≡ true
    → find fid s.client.file_list ≡ some file
    → find file.file_meta s.client.heap ≡ some f
    → s.info.fd ≡ fid_to_fd fid
    → s.info.buffer_flag ≡ true
    → (has_flag s.info.open_flag o_wronly || has_flag s.info.open_flag o_rdwr) ≡ true
    → s.info.cur_buf_off ≤ s.info.buffered_data_size
    → s.info.cur_buf_off + length bytes ≤ s.info.buffer_size
    → (t u v : Stream Peer) × (write_stream net fuel bytes s ≡ returns (some (length bytes)) t)
      × (seek_stream net fuel (cur_file_off s.info) 0 t ≡ returns (pos (cur_file_off s.info)) u)
      × (read_stream net fuel (length bytes) u ≡ returns (some bytes) v)
      × (cur_file_off t.info ≡ cur_file_off s.info + length bytes)
      × (cur_file_off v.info ≡ cur_file_off s.info + length bytes)
      × (v.client ≡ s.client)
unfolding write_meta_update
read_stream-write_stream net fuel fid file f bytes s started found here fd buffered writable within
      room =
    let i : StreamInfo = s.info in
    let n : ℕ = length bytes in
    let at_start : StreamInfo = record (written bytes i) { cur_buf_off = i.cur_buf_off } in
    let t : Stream _ = record s { info = written bytes i } in
    let u : Stream _ = record s { info = at_start } in
    let v : Stream _ = record s { info = passed f.file_stat.st_size n at_start } in
    let back : cur_file_off i - i.buf_file_off ≡ i.cur_buf_off = omega arith in
    (
      t,
      u,
      v,
      run-write_stream net fuel bytes s buffered writable within room,
      run-seek_stream net fuel (cur_file_off i) t buffered (omega arith) (ground (arith, within))
          ∙ ap
              (λ c.
                returns (pos (cur_file_off i))
                  (record s { info = record (written bytes i) { cur_buf_off = c } }))
              back,
      run-read_stream net fuel fid file f n u started found here fd buffered (ground arith)
            (ground arith)
          ∙ ap (λ l. returns (some l) v) (slice-put i.buf i.cur_buf_off bytes),
      omega arith,
      omega arith,
      refl,
    )
