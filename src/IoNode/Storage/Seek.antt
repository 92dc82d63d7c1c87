-- ===== src/IoNode/Storage/Seek.antt =====
-- A block that is not written back because the seek to its place in the file fails.
use huron_fs.Prelude.{◌+◌, ◌<◌, ◌≡◌, refl, ap, ◌∙◌, true, false, not, some, leb, ◌++◌}
use huron_fs.Prelude.Map.{ℕ_key, ℤ_key, FilePath, find, set}
use huron_fs.Exec.{Exception, returns, throws, undefined}
use huron_fs.Exec.Laws.{run-if_true, run-if_false, run-bind, run-then}
use huron_fs.IoNode.{
  IoNode, System, M, File, Block, BlockId, Directory, Postponed, max_open_file_count,
}
use huron_fs.IoNode.Access.{find_block, read_block, put_block, set_block, read_file}
use huron_fs.IoNode.Access.Laws.{
  run-read_block, run-put_block, run-read_file, find_block-set_block, find-with_block,
  find_block-put_file,
}
use huron_fs.IoNode.Storage.{
  directory_of, check_directory, open_remote_file, opened, open_mode, set_open, write_data,
  write_to_storage,
}
use huron_fs.IoNode.Storage.Failure.{few}
use huron_fs.IoNode.Replacement.{writeback, free_data}

module _ {Disk : Type 0} (os : System Disk) where
  -- The state after a remote file is opened for writing
  abbrev open_state : BlockId → File → Disk → IoNode Disk → IoNode Disk
  open_state id f disk s = record s {
    open_file_count = s.open_file_count + 1;
    disk = disk;
    files = set id.0 (set_open f true) s.files;
  }

  check_directory-present :
      (path : FilePath) (s : IoNode Disk)
      → os.directory s.disk (directory_of path) ≡ Directory.present
      → check_directory os path s ≡ returns tt s
  unfolding check_directory
  check_directory-present path s h = rw h refl

  open_remote_file-opens :
      (id : BlockId) (f : File) (path : FilePath) (disk : Disk) (s : IoNode Disk)
      → find id.0 s.files ≡ some f
      → f.write_remote_fd ≡ false
      → s.open_file_count < max_open_file_count
      → os.directory s.disk (directory_of path) ≡ Directory.present
      → os.opens s.disk path (open_mode true) ≡ some disk
      → open_remote_file os id.0 path true s ≡ returns tt (open_state id f disk s)
  unfolding open_remote_file opened
  open_remote_file-opens id f path disk s h closed count there opens =
      let s1 : IoNode Disk = record s { open_file_count = s.open_file_count + 1 } in
      let s2 : IoNode Disk = record s1 { disk = disk } in
      run-bind (read_file id.0) _ f s s (run-read_file id.0 f s h)
      ∙ run-if_false f.write_remote_fd _ _ s closed
      ∙ run-if_false (leb max_open_file_count s.open_file_count) _ _ s (few s.open_file_count count)
      ∙ run-then (check_directory os path) _ tt s1 s1 (check_directory-present path s1 there)
      ∙ ap (λ o. opened os id.0 true o s1) opens
      ∙ run-bind (read_file id.0) _ f s2 s2 (run-read_file id.0 f s2 h)

  write_data-no_seek :
      (id : BlockId) (c : Block) (path : FilePath) (s : IoNode Disk)
      → find_block id s ≡ some c
      → os.lseek s.disk path c.start_point ≡ false
      → write_data os id path s
        ≡ throws Exception.runtime_error (set_block id (record c { writing_back = true }) s)
  unfolding write_data
  write_data-no_seek id c path s h fails =
      let t : IoNode Disk = set_block id (record c { writing_back = true }) s in
      run-bind (read_block id) _ c s s (run-read_block id c s h)
      ∙ run-then (put_block id (record c { writing_back = true })) _ tt s t
          (run-put_block id c (record c { writing_back = true }) s h)
      ∙ run-if_true (not (os.lseek t.disk path c.start_point)) _ _ t (ap not fails)

  writes_data :
      {A : Type 0} (p : Postponed) (m k : M Disk A) (s : IoNode Disk)
      → p ≡ Postponed.nothing
      → (elim p as (λ x. M Disk A) [
        | Postponed.nothing ↦ m
        | Postponed.to_be_deleted ↦ k
        | Postponed.to_be_closed ↦ m
      ])
          s
        ≡ m s
  writes_data p m k s h = rw h refl

  -- Where the seek fails after the file of a dirty block is opened, its write-back throws, while the
  -- block is not receiving data, nothing is postponed on it, its file is not open for writing and
  -- fewer than MAX_OPEN_FILE_COUNT files are counted. Afterwards the block counts as clean and as
  -- being written back, the storage is as the opening left it, the count of open files has grown by
  -- one, and IOnode::free_data on the block waits for a write-back that does not end.
  pub writeback-failed_seek :
      (id : BlockId) (b : Block) (f : File) (disk : Disk) (s : IoNode Disk)
      → find_block id s ≡ some b
      → find id.0 s.files ≡ some f
      → b.dirty ≡ true
      → b.receiving_data ≡ false
      → b.postponed ≡ Postponed.nothing
      → f.write_remote_fd ≡ false
      → s.open_file_count < max_open_file_count
      → os.directory s.disk (directory_of (s.mount_point ++ f.file_path)) ≡ Directory.present
      → os.opens s.disk (s.mount_point ++ f.file_path) (open_mode true) ≡ some disk
      → os.lseek disk (s.mount_point ++ f.file_path) b.start_point ≡ false
      → (t : IoNode Disk) × (writeback os id s ≡ throws Exception.runtime_error t)
        × (find_block id t ≡ some (record b { dirty = false; writing_back = true }))
        × (t.disk ≡ disk)
        × (t.open_file_count ≡ s.open_file_count + 1)
        × (free_data id t ≡ undefined)
  unfolding writeback write_to_storage free_data
  writeback-failed_seek id b f disk s h hf hd hr hp hw count there opens fails =
      let path : FilePath = s.mount_point ++ f.file_path in
      let c : Block = record b { dirty = false } in
      let d : Block = record c { writing_back = true } in
      let s1 : IoNode Disk = set_block id c s in
      let g : File = record f { blocks = set id.1 c f.blocks } in
      let hg : find id.0 s1.files ≡ some g = find-with_block id c f s.files hf in
      let r : IoNode Disk = open_state id g disk s1 in
      let hc : find_block id r ≡ some c =
        find_block-put_file id.0 id g (set_open g true) s1 hg refl
        ∙ find_block-set_block id b c s h in
      let t : IoNode Disk = set_block id d r in
      let found : find_block id t ≡ some d = find_block-set_block id c d r hc in
      (
        t,
        run-bind (read_block id) _ b s s (run-read_block id b s h)
            ∙ run-if_true b.dirty _ _ s hd
            ∙ run-bind (read_block id) _ b s s (run-read_block id b s h)
            ∙ run-if_false b.receiving_data _ _ s hr
            ∙ run-then (put_block id c) _ tt s s1 (run-put_block id b c s h)
            ∙ run-bind (read_file id.0) _ g s1 s1 (run-read_file id.0 g s1 hg)
            ∙ run-then (open_remote_file os id.0 path true) _ tt s1 r
                (open_remote_file-opens id g path disk s1 hg hw count there opens)
            ∙ writes_data b.postponed (write_data os id path) _ r hp
            ∙ write_data-no_seek id c path r hc fails,
        found,
        refl,
        refl,
        run-bind (read_block id) _ d t t (run-read_block id d t found),
      )
