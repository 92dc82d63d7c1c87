-- ===== src/Client/Paths.antt =====
-- The operations on a path: CBB_client::_getattr, remote_getattr, _get_local_attr, _rmdir,
-- _unlink, _access, remote_access, remote_stat, _rename, _mkdir, _truncate and _ftruncate of
-- src/Client/src/CBB_client.cpp. Where a Master names another Master, the answer is given back
-- before it is popped: that is undefined here.
use huron_fs.Prelude.{ℕ, Option, none, some, List, [], ◌∷◌, ◌==◌, if◌then◌else◌}
use huron_fs.Prelude.Int.{ℤ, pos, negsuc}
use huron_fs.Prelude.Map.{ℕ_key, ℤ_key, path_key, FilePath, find, insert, erase, same}
use huron_fs.Exec.{out_of_range, ◌>>=◌, ◌>>◌, pure, throw, fault, gets, modify, deref}
use huron_fs.Master.{Stat, Word, num, text, success, myself}
use huron_fs.Client.{M, Network}
use huron_fs.Client.Code
use huron_fs.Client.Query.{
  code, set_errno, pop_int, recv_attr, query, check_init, master_number_of, master_handle_of,
  master_handle_from_path, negate,
}
use huron_fs.Client.Table.{opened_at, read_meta, put_meta}
use huron_fs.Client.Remote.{update_access_time}
use huron_fs.Client.Descriptor.{close_local_opened_file}

module _ {Peer : Type 0} where
  -- Either 0, or errno=-ret and -errno
  unfoldable pub result_of : ℤ → M Peer ℤ
  result_of ret = if same ret success then pure (pos 0) else (do set_errno (negate ret); pure ret)

  -- The end of a turn of a loop that follows a Master's answer to the Master that it names, which
  -- must be the one that was asked.
  unfoldable pub same_master : ℕ → ℤ → M Peer (Unit {0})
  same_master master_number (pos n) = do
    master_handle_of n
    if n == master_number then pure tt else fault
  same_master master_number (negsuc n) = throw out_of_range

  -- The first half of CBB_client::_rename: the file that is open here
  unfoldable pub rename_locally : FilePath → FilePath → M Peer (Unit {0})
  rename_locally old_name new_name = do
    found ← gets (λ s. find old_name s.path_file_meta_map)
    elim found [
      | none ↦ pure tt
      | some a ↦ if same old_name new_name then fault else (do
        modify λ s. record s {
          path_file_meta_map = erase old_name (insert new_name a s.path_file_meta_map);
        }
        moved ← gets (λ s. find new_name s.path_file_meta_map)
        b ← deref moved
        f ← read_meta b
        put_meta b (record f { path = some new_name }))
    ]

  module _ (net : Network Peer) where
    -- A query to the Master of a path, whose answer is the result alone
    unfoldable pub path_query : FilePath → List Word → M Peer ℤ
    path_query path words = do
      check_init net
      handle ← master_handle_from_path net path
      a ← query net handle words []
      ret ← pop_int a.words
      pure ret.0

    -- CBB_client::_rmdir and _mkdir
    unfoldable pub rmdir_once : FilePath → M Peer ℤ
    rmdir_once path = do ret ← path_query path (code Code.rm_dir ∷ text path ∷ []); result_of ret

    unfoldable pub mkdir_once : FilePath → ℕ → M Peer ℤ
    mkdir_once path mode = do
      ret ← path_query path (code Code.mkdir ∷ text path ∷ code mode ∷ [])
      result_of ret

    -- CBB_client::_unlink
    unfoldable pub unlink_once : FilePath → M Peer ℤ
    unlink_once path = do
      ret ← path_query path (code Code.unlink ∷ text path ∷ [])
      if same ret success
          then (do close_local_opened_file net path; pure (pos 0))
          else result_of ret

    -- A query whose answer names a Master first; the result is what is left of the answer.
    unfoldable pub followed_query : FilePath → List Word → M Peer (List Word)
    followed_query path words = do
      check_init net
      master_number ← master_number_of net path
      handle ← master_handle_of master_number
      a ← query net handle words []
      ret ← pop_int a.words
      same_master master_number ret.0
      pure ret.1

    -- CBB_client::remote_getattr; the second part is what fstat gets.
    unfoldable pub remote_getattr : FilePath → M Peer (ℤ × Option Stat)
    remote_getattr path = do
      words ← followed_query path (code Code.get_attr ∷ text path ∷ [])
      ret ← pop_int words
      if same ret.0 success
          then (do fstat ← recv_attr ret.1; pure (ret.0, some fstat.0))
          else (do set_errno (negate ret.0); pure (ret.0, none))

    -- CBB_client::_getattr, with _get_local_attr
    unfoldable pub getattr_once : FilePath → M Peer (ℤ × Option Stat)
    getattr_once path = do
      check_init net
      found ← gets (λ s. find path s.path_file_meta_map)
      elim found [
        | some a ↦ do f ← read_meta a; pure (pos 0, some f.file_stat)
        | none ↦ remote_getattr path
      ]

    -- CBB_client::remote_access
    unfoldable pub remote_access : FilePath → ℕ → M Peer ℤ
    remote_access path mode = do
      words ← followed_query path (code Code.access ∷ text path ∷ code mode ∷ [])
      ret ← pop_int words
      result_of ret.0

    -- CBB_client::_access
    unfoldable pub access_once : FilePath → ℕ → M Peer ℤ
    access_once path mode = do
      check_init net
      found ← gets (λ s. find path s.path_file_meta_map)
      elim found [ some a ↦ pure (pos 0) | none ↦ remote_access path mode ]

    -- CBB_client::remote_stat: the loop's own `response` hides the one that is read behind it, which
    -- is null.
    unfoldable pub remote_stat : FilePath → M Peer (ℤ × Option Stat)
    remote_stat path = do followed_query path (code Code.get_file_meta ∷ text path ∷ []); fault

    -- CBB_client::_truncate
    unfoldable pub truncate_once : FilePath → ℕ → M Peer ℤ
    truncate_once path size = do
      words ← followed_query path (code Code.truncate ∷ text path ∷ code size ∷ [])
      ret ← pop_int words
      result_of ret.0

    -- CBB_client::_ftruncate
    unfoldable pub ftruncate_once : ℕ → ℕ → M Peer ℤ
    ftruncate_once fd size = do
      check_init net
      file ← opened_at fd
      f ← read_meta file.file_meta
      put_meta file.file_meta (record f { file_stat = record f.file_stat { st_size = size } })
      update_access_time net fd
      path ← deref f.path
      truncate_once path size

    -- The second half of CBB_client::_rename: one Master, or the old and then the new one
    unfoldable pub rename_remotely : FilePath → FilePath → ℕ → ℕ → M Peer ℤ
    rename_remotely old_name new_name old_number new_number = do
      old_handle ← master_handle_of old_number
      a ←
          query net old_handle
            (code Code.rename
              ∷ text old_name
              ∷ text new_name
              ∷ num (if new_number == old_number then myself else pos new_number)
              ∷ [])
            []
      ret ← pop_int a.words
      if new_number == old_number then pure ret.0 else (do
        new_handle ← master_handle_of new_number
        b ←
            query net new_handle (code Code.rename_migrating ∷ text new_name ∷ code old_number ∷ [])
              []
        last ← pop_int b.words
        pure last.0)

    -- CBB_client::_rename
    unfoldable pub rename_once : FilePath → FilePath → M Peer ℤ
    rename_once old_name new_name = do
      check_init net
      new_number ← master_number_of net new_name
      old_number ← master_number_of net old_name
      master_handle_of old_number
      master_handle_of new_number
      rename_locally old_name new_name
      ret ← rename_remotely old_name new_name old_number new_number
      result_of ret
