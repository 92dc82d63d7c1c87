-- ===== src/Client/Remote/Cached.antt =====
-- CBB_client::_read on cached blocks.
use huron_fs.Prelude.{
  ℕ, ◌+◌, ◌≤◌, ◌<◌, ◌≡◌, refl, ap, ◌∙◌, Bool, true, false, some, [], ◌∷◌, ltb, ◌==◌, if◌then◌else◌,
  arith,
}
use huron_fs.Prelude.Int.{pos}
use huron_fs.Prelude.Map.{ℕ_key, ℤ_key, Map, find, set}
use huron_fs.Exec.{returns, pure, gets, deref}
use huron_fs.Exec.Laws.{run-bind, run-then, run-deref, run-if_true, run-if_false, run-catch_returns}
use huron_fs.Block.{get_block_start_point}
use huron_fs.Client.{Client, Network, FileMeta, OpenedFileInfo, Scbb}
use huron_fs.Client.Code
use huron_fs.Client.Query.{check_init}
use huron_fs.Client.Query.Laws.{run-check_init}
use huron_fs.Client.Table.{opened_at, fid_at, fid_to_fd, read_meta}
use huron_fs.Client.Table.Run.{run-read_meta, run-opened_at, run-fid_at}
use huron_fs.Client.Blocks.{
  Update, no_need_update, NodePool, write_over_block, blocks_from, cached_blocks, cached_nodes,
  scbb_of, choose_cached, search_cache, get_blocks_from_cache,
}
use huron_fs.Client.Remote.{
  locate, locate_cached, read_located, remote_read, read_opened, read_once,
}

-- Every block of a range is in the cache of a file, in which nothing is dirty.
pub record IsCached (f : FileMeta) (start_point size : ℕ) : Type 0 where
  pub inside : size + start_point ≤ f.file_stat.st_size
  pub clean : f.need_update ≡ false
  pub some_bytes : 0 < size
  pub all :
      (cached_blocks size (blocks_from (get_block_start_point start_point) f.block_list) []).1 ≡ 0

run_no : (a b : Update) (c : Bool) → c ≡ false → (if c then a else b) ≡ b
run_no a b c h = rw h refl

write_over_block-inside :
    (f : FileMeta) (start_point size : ℕ)
    → size + start_point ≤ f.file_stat.st_size
    → write_over_block f start_point size ≡ no_need_update
unfolding write_over_block
write_over_block-inside f start_point size h =
    run_no _ _ (ltb f.file_stat.st_size (size + start_point)) (ground (arith, h))

abbrev found_of : FileMeta → Scbb → ℕ → ℕ → Update × Map ℕ ℕ × NodePool
found_of f scbb start_point size = (
  no_need_update,
  (cached_blocks size (blocks_from (get_block_start_point start_point) f.block_list) []).0,
  (cached_nodes scbb.io_node_list f.io_node_list_cache []).1,
)

clean_choice :
    {Peer : Type 0} (dirty : Bool) (left : ℕ) (blocks : Map ℕ ℕ) (pool : NodePool) (s : Client Peer)
    → dirty ≡ false
    → left ≡ 0
    → pure {A = Update × Map ℕ ℕ × NodePool}
        (
          (if left == 0
              then (if dirty then Update.update_meta_only else no_need_update)
              else Update.need_update),
          blocks,
          pool,
        )
        s
      ≡ returns (no_need_update, blocks, pool) s
clean_choice dirty left blocks pool s a b = rw (a, b) refl

module _ {Peer : Type 0} where
  -- The client with the entries that the lookup of the handles makes
  abbrev noted : FileMeta → Scbb → Client Peer → Client Peer
  noted f scbb s = record s {
    master_handle_list =
        set f.corresponding_scbb
          (record scbb {
            io_node_list = (cached_nodes scbb.io_node_list f.io_node_list_cache []).0;
          })
          s.master_handle_list;
  }

  run-choose_cached :
      (f : FileMeta) (scbb : Scbb) (start_point size : ℕ) (s : Client Peer)
      → IsCached f start_point size
      → find f.corresponding_scbb s.master_handle_list ≡ some scbb
      → choose_cached f start_point size no_need_update s
        ≡ returns (found_of f scbb start_point size) (noted f scbb s)
  unfolding choose_cached
  run-choose_cached f scbb start_point size s c master =
      run-bind (scbb_of f.corresponding_scbb) _ scbb s s (
        run-bind (gets (λ t. find f.corresponding_scbb t.master_handle_list)) deref
          (find f.corresponding_scbb s.master_handle_list) s s refl
        ∙ run-deref (find f.corresponding_scbb s.master_handle_list) scbb s master)
      ∙ clean_choice f.need_update
          (cached_blocks size (blocks_from (get_block_start_point start_point) f.block_list) []).1
          (cached_blocks size (blocks_from (get_block_start_point start_point) f.block_list) []).0
          (cached_nodes scbb.io_node_list f.io_node_list_cache []).1 (noted f scbb s) c.clean c.all

  -- A cache that has every block is not empty.
  run-cache_full :
      (f : FileMeta) (scbb : Scbb) (start_point size : ℕ) (blocks : Map ℕ ℕ) (s : Client Peer)
      → blocks ≡ f.block_list
      → IsCached f start_point size
      → find f.corresponding_scbb s.master_handle_list ≡ some scbb
      → search_cache f start_point size blocks s
        ≡ returns (found_of f scbb start_point size) (noted f scbb s)
  unfolding search_cache blocks_from cached_blocks
  run-cache_full f scbb start_point size [] s e c master =
      let empty : size ≡ 0 =
        ap (λ l. (cached_blocks size (blocks_from (get_block_start_point start_point) l) []).1) e
        ∙ c.all in
      absurd (omega (arith, empty, c.some_bytes))
  run-cache_full f scbb start_point size (b ∷ blocks) s e c master =
      ap (λ over. choose_cached f start_point size over s)
        (write_over_block-inside f start_point size c.inside)
      ∙ run-choose_cached f scbb start_point size s c master

  module _ (net : Network Peer) (fuel : ℕ) where
    -- remote_IO finds the blocks, and takes the answer that nothing need be updated for a failure.
    run-remote_read :
        (a start_point size : ℕ) (f : FileMeta) (scbb : Scbb) (s : Client Peer)
        → s.using_io_node_cache ≡ true
        → find a s.heap ≡ some f
        → IsCached f start_point size
        → find f.corresponding_scbb s.master_handle_list ≡ some scbb
        → remote_read net fuel a start_point size s
          ≡ returns [] (record (noted f scbb s) { errno = pos Code.einval })
    unfolding remote_read locate get_blocks_from_cache locate_cached read_located
    run-remote_read a start_point size f scbb s cache here c master =
        let t : Client Peer = noted f scbb s in
        let found = found_of f scbb start_point size in
        run-bind (locate net a start_point size Code.read_file) _ found s t (
          run-if_true s.using_io_node_cache _ _ s cache
          ∙ run-bind (get_blocks_from_cache a start_point size) _ found s t (
              run-bind (read_meta a) _ f s s (run-read_meta a f s here)
              ∙ run-cache_full f scbb start_point size f.block_list s refl c master))

    run-read_opened :
        (fid size : ℕ) (file : OpenedFileInfo) (f : FileMeta) (scbb : Scbb) (s : Client Peer)
        → s.using_io_node_cache ≡ true
        → find fid s.file_list ≡ some file
        → find file.file_meta s.heap ≡ some f
        → IsCached f file.current_point size
        → find f.corresponding_scbb s.master_handle_list ≡ some scbb
        → read_opened net fuel (fid_to_fd fid) size s
          ≡ returns (some []) (record (noted f scbb s) {
            errno = pos Code.einval;
            file_list =
                set fid (record file { current_point = file.current_point + 0 }) s.file_list;
          })
    unfolding read_opened
    run-read_opened fid size file f scbb s cache found here c master =
        let fd : ℕ = fid_to_fd fid in
        let t : Client Peer = record (noted f scbb s) { errno = pos Code.einval } in
        run-bind (opened_at fd) _ file s s (run-opened_at fid file s found)
        ∙ run-bind (fid_at fd) _ fid s s (run-fid_at fid s)
        ∙ run-bind (read_meta file.file_meta) _ f s s (run-read_meta file.file_meta f s here)
        ∙ run-if_false (ltb f.file_stat.st_size (size + file.current_point)) _ _ s
            (ground (arith, c.inside))
        ∙ run-bind (remote_read net fuel file.file_meta file.current_point size) _ [] s t
            (run-remote_read file.file_meta file.current_point size f scbb s cache here c master)

-- _read of an open descriptor in a registered client that uses its cache of blocks, where the loop
-- over the cached blocks leaves nothing of the range over, which is not empty and ends within the
-- file, and nothing in the file is dirty: it gives no bytes and sets errno to EINVAL, and no
-- server has been asked.
pub read_once-Cached :
    {Peer : Type 0} (net : Network Peer) (fuel fid size : ℕ) (file : OpenedFileInfo) (f : FileMeta)
    (scbb : Scbb) (s : Client Peer)
    → s.thread_started ≡ true
    → s.using_io_node_cache ≡ true
    → find fid s.file_list ≡ some file
    → find file.file_meta s.heap ≡ some f
    → IsCached f file.current_point size
    → find f.corresponding_scbb s.master_handle_list ≡ some scbb
    → (t : Client Peer) × (read_once net fuel (fid_to_fd fid) size s ≡ returns (some []) t)
      × (t.errno ≡ pos Code.einval)
      × (t.peer ≡ s.peer)
unfolding read_once
read_once-Cached net fuel fid size file f scbb s started cache found here c master =
    let fd : ℕ = fid_to_fd fid in
    let t : Client _ = record (noted f scbb s) {
      errno = pos Code.einval;
      file_list = set fid (record file { current_point = file.current_point + 0 }) s.file_list;
    } in
    (
      t,
      run-then (check_init net) _ tt s s (run-check_init net s started)
          ∙ run-if_false (size == 0) _ _ s (ground (arith, c.some_bytes))
          ∙ run-catch_returns (read_opened net fuel fd size) _ (some []) s t
              (run-read_opened net fuel fid size file f scbb s cache found here c master),
      refl,
      refl,
    )
