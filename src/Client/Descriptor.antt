-- ===== src/Client/Descriptor.antt =====
-- The other operations on a descriptor: CBB_client::_close, _flush, _lseek, _tell,
-- _get_file_size, _update_file_size and _close_local_opened_file of
-- src/Client/src/CBB_client.cpp. A seek has a nonnegative offset.
pub mod Close
pub mod OpenClose
use huron_fs.Prelude.{
  ℕ, zero, suc, ◌+◌, ◌-◌, Bool, true, false, Option, none, some, List, [], ◌∷◌, ltb, ◌==◌,
  if◌then◌else◌,
}
use huron_fs.Prelude.Int.{ℤ, pos, negsuc}
use huron_fs.Prelude.Map.{ℕ_key, ℤ_key, path_key, Map, FilePath, find, same}
use huron_fs.Exec.{out_of_range, ◌>>=◌, ◌>>◌, pure, throw, fault, gets, at, catch}
use huron_fs.Master.{Word, num, success, failure}
use huron_fs.Client.{Client, M, Network, FileMeta, OpenedFileInfo}
use huron_fs.Client.Code
use huron_fs.Client.Query.{code, set_errno, pop_int, query, check_init, negate}
use huron_fs.Client.Table.{
  opened_at, fid_at, lookup_fd, read_meta, put_meta, delete_file_meta, delete_open_file,
}
use huron_fs.Client.Blocks.{master_handle_of_meta, grow_size}
use huron_fs.Client.Remote.{or_out_of_range, set_point}

-- What a switch on `whence` makes of the position
unfoldable pub sought : ℕ → ℕ → ℕ → ℕ → ℕ
sought whence offset current_point end_point =
    if whence == 0
    then offset
    else if whence == 1
    then current_point + offset
    else if whence == 2
    then end_point + offset
    else current_point

module _ {Peer : Type 0} where
  -- _get_master_handle_from_fd, which stands outside the try block
  unfoldable pub master_handle_from_fd : ℕ → M Peer ℕ
  master_handle_from_fd fd = do
    file ← opened_at fd
    f ← read_meta file.file_meta
    master_handle_of_meta f

  unfoldable pub seek_opened : ℕ → ℕ → ℕ → M Peer ℤ
  seek_opened fd offset whence = do
    file ← opened_at fd
    fid ← fid_at fd
    f ← read_meta file.file_meta
    set_point fid file (sought whence offset file.current_point f.file_stat.st_size)
    pure (pos offset)

  unfoldable pub resize_opened : ℕ → ℕ → M Peer ℤ
  resize_opened fd size = do
    file ← opened_at fd
    f ← read_meta file.file_meta
    put_meta file.file_meta (record (grow_size size f) { need_update = true })
    pure (pos 0)

  module _ (net : Network Peer) where
    -- CBB_client::_lseek
    unfoldable pub lseek_once : ℕ → ℕ → ℕ → M Peer ℤ
    lseek_once fd offset whence = do
      check_init net
      or_out_of_range Code.ebadf (negsuc 0) (seek_opened fd offset whence)

    -- CBB_client::_tell
    unfoldable pub tell_once : ℕ → M Peer ℕ
    tell_once fd = do check_init net; file ← opened_at fd; pure file.current_point

    -- CBB_client::_get_file_size
    unfoldable pub get_file_size : ℕ → M Peer ℕ
    get_file_size fd = do
      check_init net
      file ← opened_at fd
      f ← read_meta file.file_meta
      pure f.file_stat.st_size

    -- CBB_client::_update_file_size
    unfoldable pub update_file_size : ℕ → ℕ → M Peer ℤ
    update_file_size fd size = do
      check_init net
      or_out_of_range Code.ebadfd (negsuc 0) (resize_opened fd size)

    -- The query of CBB_client::_close and _flush, which pops the result.
    abbrev pub file_query : ℕ → ℕ → OpenedFileInfo → M Peer ℤ
    file_query mode handle file = do
      f ← read_meta file.file_meta
      a ← query net handle (code mode ∷ num f.remote_file_no ∷ []) []
      ret ← pop_int a.words
      pure ret.0

    unfoldable pub close_opened : ℕ → ℕ → M Peer ℤ
    close_opened fd handle = do
      file ← opened_at fd
      fid ← fid_at fd
      ret ← file_query Code.close_file handle file
      if same ret success
          then (do delete_open_file fid file; pure (pos 0))
          else (do set_errno (negate ret); pure (negsuc 0))

    -- CBB_client::_close
    unfoldable pub close_once : ℕ → M Peer ℤ
    close_once fd = do
      check_init net
      handle ← master_handle_from_fd fd
      or_out_of_range Code.ebadfd (negsuc 0) (close_opened fd handle)

    unfoldable pub flush_opened : ℕ → ℕ → M Peer ℤ
    flush_opened fd handle = do
      file ← opened_at fd
      ret ← file_query Code.flush_file handle file
      if same ret success then pure (pos 0) else (do set_errno (negate ret); pure (negsuc 0))

    -- CBB_client::_flush
    unfoldable pub flush_once : ℕ → M Peer ℤ
    flush_once fd = do
      handle ← master_handle_from_fd fd
      check_init net
      or_out_of_range Code.ebadfd (negsuc 0) (flush_opened fd handle)

    -- The loop of CBB_client::_close_local_opened_file. A close that succeeds erases the
    -- descriptor that the iterator stands on, or deletes the whole file.
    unfoldable pub close_each : ℕ → Map ℕ (Unit {0}) → M Peer (Unit {0})
    close_each a [] = pure tt
    close_each a ((fd, u) ∷ fds) = do
      ret ← close_once fd
      if same ret success then fault else (do
        f ← read_meta a
        put_meta a (record f { open_count = f.open_count - 1 })
        close_each a fds)

    unfoldable pub close_path : FilePath → M Peer ℤ
    close_path path = do
      found ← gets (λ s. find path s.path_file_meta_map)
      a ← at found
      f ← read_meta a
      close_each a f.opened_fd
      delete_file_meta a
      pure (pos 0)

    -- CBB_client::_close_local_opened_file
    unfoldable pub close_local_opened_file : FilePath → M Peer ℤ
    close_local_opened_file path =
        catch (close_path path) (λ x. elim x [ out_of_range ↦ pure failure | other ↦ throw other ])
