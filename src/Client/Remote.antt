-- ===== src/Client/Remote.antt =====
-- Reads and writes of a descriptor: CBB_client::remote_IO, _read, _write and
-- _update_access_time of src/Client/src/CBB_client.cpp.
pub mod Cached
pub mod Locate
pub mod Write
use huron_fs.Prelude.{
  ℕ, zero, suc, ◌+◌, ◌-◌, Bool, true, false, Option, none, some, List, [], ◌∷◌, length, ltb, leb,
  ◌==◌, if◌then◌else◌,
}
use huron_fs.Prelude.Int.{ℤ, pos, negsuc}
use huron_fs.Prelude.Map.{ℕ_key, Map, find, set}
use huron_fs.Exec.{Exception, out_of_range, ◌>>=◌, ◌>>◌, pure, throw, gets, modify, at, catch}
use huron_fs.Client.{Client, M, Network, FileMeta, OpenedFileInfo}
use huron_fs.Client.Code
use huron_fs.Client.Query.{set_errno, check_init}
use huron_fs.Client.Table.{opened_at, fid_at, read_meta, put_meta}
use huron_fs.Client.Blocks.{
  Update, no_need_update, update_meta_only, need_update, updated, refused, NodePool,
  get_blocks_from_cache, get_blocks_from_master, update_meta,
}
use huron_fs.Client.Transfer.{write_to_io_node, read_from_io_node}

module _ {Peer : Type 0} where
  -- catch(std::out_of_range &e) { errno = e; return result; }
  abbrev pub or_out_of_range : {A : Type 0} → ℕ → A → M Peer A → M Peer A
  or_out_of_range e result m =
      catch m
        (λ x. elim x [ out_of_range ↦ (do set_errno (pos e); pure result) | other ↦ throw other ])

  -- file.current_point = point
  abbrev pub set_point : ℕ → OpenedFileInfo → ℕ → M Peer (Unit {0})
  set_point fid file point =
      modify
        λ s. record s { file_list = set fid (record file { current_point = point }) s.file_list }

  module _ (net : Network Peer) where
    -- CBB_client::_update_access_time
    unfoldable pub touch_file : ℕ → M Peer ℤ
    touch_file fd = do
      file ← opened_at fd
      now ← gets (λ s. net.time s.peer)
      f ← read_meta file.file_meta
      put_meta file.file_meta
          (record f { file_stat = record f.file_stat { st_time = now }; need_update = true })
      pure (pos 0)

    unfoldable pub update_access_time : ℕ → M Peer ℤ
    update_access_time fd = do
      check_init net
      or_out_of_range Code.ebadfd (negsuc 0) (touch_file fd)

    -- The first half of CBB_client::remote_IO: where the blocks are
    unfoldable pub locate_cached :
        ℕ → ℕ → ℕ → ℕ → Update × Map ℕ ℕ × NodePool → M Peer (Update × Map ℕ ℕ × NodePool)
    locate_cached a start_point size mode (need_update, blocks, pool) =
        get_blocks_from_master net a start_point size blocks pool mode
    locate_cached a start_point size mode (update_meta_only, blocks, pool) = do
      ret ← update_meta net a start_point size
      pure (ret, blocks, pool)
    locate_cached a start_point size mode (ret, blocks, pool) = pure (ret, blocks, pool)

    unfoldable pub locate : ℕ → ℕ → ℕ → ℕ → M Peer (Update × Map ℕ ℕ × NodePool)
    locate a start_point size mode = do
      cached ← gets (λ s. s.using_io_node_cache)
      if cached
          then (do
            found ← get_blocks_from_cache a start_point size
            locate_cached a start_point size mode found)
          else get_blocks_from_master net a start_point size [] [] mode

    module _ (fuel : ℕ) where
      -- The second half, for WRITE_FILE and for READ_FILE
      unfoldable pub write_located : ℕ → ℕ → List ℕ → Update × Map ℕ ℕ × NodePool → M Peer ℕ
      write_located a start_point buffer (updated, blocks, pool) = do
        f ← read_meta a
        write_to_io_node net fuel f blocks pool buffer start_point
      write_located a start_point buffer (ret, blocks, pool) = do
        set_errno (pos Code.einval)
        pure 0

      unfoldable pub remote_write : ℕ → ℕ → List ℕ → M Peer ℕ
      remote_write a start_point buffer = do
        found ← locate a start_point (length buffer) Code.write_file
        write_located a start_point buffer found

      unfoldable pub read_located : ℕ → ℕ → ℕ → Update × Map ℕ ℕ × NodePool → M Peer (List ℕ)
      read_located a start_point size (updated, blocks, pool) = do
        f ← read_meta a
        read_from_io_node net fuel f blocks pool start_point size
      read_located a start_point size (ret, blocks, pool) = do set_errno (pos Code.einval); pure []

      unfoldable pub remote_read : ℕ → ℕ → ℕ → M Peer (List ℕ)
      remote_read a start_point size = do
        found ← locate a start_point size Code.read_file
        read_located a start_point size found

      -- CBB_client::_read; the bytes that come before read_size are those in the buffer, and
      -- -1 is none.
      unfoldable pub read_opened : ℕ → ℕ → M Peer (Option (List ℕ))
      read_opened fd size = do
        file ← opened_at fd
        fid ← fid_at fd
        f ← read_meta file.file_meta
        let end_point : ℕ = f.file_stat.st_size
        if ltb end_point (size + file.current_point)
            then (if ltb file.current_point end_point
                then (do
                  got ←
                      remote_read file.file_meta file.current_point (end_point - file.current_point)
                  set_point fid file (file.current_point + length got)
                  pure (some got))
                else pure (some []))
            else (do
              got ← remote_read file.file_meta file.current_point size
              set_point fid file (file.current_point + length got)
              pure (some got))

      unfoldable pub read_once : ℕ → ℕ → M Peer (Option (List ℕ))
      read_once fd size = do
        check_init net
        if size == 0 then pure (some []) else or_out_of_range Code.ebadfd none (read_opened fd size)

      -- CBB_client::_write; none is -1.
      unfoldable pub write_opened : ℕ → List ℕ → M Peer (Option ℕ)
      write_opened fd buffer = do
        file ← opened_at fd
        fid ← fid_at fd
        update_access_time fd
        written ← remote_write file.file_meta file.current_point buffer
        set_point fid file (file.current_point + written)
        pure (some written)

      unfoldable pub write_once : ℕ → List ℕ → M Peer (Option ℕ)
      write_once fd buffer = do
        check_init net
        if length buffer == 0
            then pure (some 0)
            else or_out_of_range Code.ebadfd none (write_opened fd buffer)
