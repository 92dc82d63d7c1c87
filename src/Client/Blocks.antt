-- ===== src/Client/Blocks.antt =====
-- Which blocks a transfer needs and where they are: CBB_client::_parse_blocks_from_master,
-- _get_blocks_from_master, _get_blocks_from_cache, write_over_block, _get_IOnode_handle,
-- _update_meta and the updates of a file's size, of src/Client/src/CBB_client.cpp.
use huron_fs.Prelude.{
  ℕ, zero, suc, ◌+◌, ◌-◌, Option, none, some, List, [], ◌∷◌, ltb, ◌==◌, if◌then◌else◌,
}
use huron_fs.Prelude.Int.{ℤ}
use huron_fs.Prelude.Map.{ℕ_key, ℤ_key, Map, FilePath, find, set, insert, same}
use huron_fs.Exec.{◌>>=◌, ◌>>◌, pure, gets, modify, deref}
use huron_fs.Block.{get_block_start_point, max_of}
use huron_fs.Master.{Word, num, attr, Set, success}
use huron_fs.Client.{M, Network, FileMeta, Scbb}
use huron_fs.Client.Code
use huron_fs.Client.Query.{
  code, set_errno, pop_int, pop_size, pop_string, query, query_new, send_only, negate,
}
use huron_fs.Client.Table.{read_meta, put_meta}

-- _node_pool_t; a handle is none where the IOnode refused the connection.
abbrev pub NodePool : Type 0
NodePool = Map ℤ (Option ℕ)

-- _write_update_file_size and _update_file_size_from_master
abbrev pub grow_size : ℕ → FileMeta → FileMeta
grow_size size f = record f {
  file_stat = record f.file_stat { st_size = max_of f.file_stat.st_size size };
}

-- NO_NEED_UPDATE, UPDATE_META_ONLY, NEED_UPDATE, and SUCCESS and -1 for the result of remote_IO's
-- variable `ret`
pub data Update : Type 0 where
  no_need_update update_meta_only need_update updated refused : Update

-- CBB_client::write_over_block
unfoldable pub write_over_block : FileMeta → ℕ → ℕ → Update
write_over_block f start_point size =
    if ltb f.file_stat.st_size (size + start_point)
    then if ltb (get_block_start_point f.file_stat.st_size + f.block_size) (size + start_point)
      then need_update
      else update_meta_only
    else no_need_update

-- The rest of a block list from a key on; the end where the key is not there.
unfoldable pub blocks_from : ℕ → Map ℕ ℕ → Map ℕ ℕ
blocks_from start [] = []
blocks_from start ((k, n) ∷ blocks) =
    let rest : Map ℕ ℕ = blocks_from start blocks in if k == start then (k, n) ∷ blocks else rest

-- The loop over the cached blocks. The size of a block is the larger one of its own and the
-- size left, so `size -= IO_size` leaves 0, or wraps around to a size above 0.
unfoldable pub cached_blocks : ℕ → Map ℕ ℕ → Map ℕ ℕ → Map ℕ ℕ × ℕ
cached_blocks size [] chosen = (chosen, size)
cached_blocks zero ((k, n) ∷ blocks) chosen = (chosen, zero)
cached_blocks (suc size) ((k, n) ∷ blocks) chosen =
    let io_size : ℕ = max_of n (suc size) in
    let left : ℕ = if suc size == io_size then 0 else suc size + 18446744073709551616 - io_size in
    cached_blocks left blocks (insert k io_size chosen)

-- The loop over the IOnodes that the cache names, with SCBB::get_IOnode_handle, which makes an
-- entry where there is none; the result is the list of handles and the pool.
unfoldable pub handle_in : Map ℤ (Option ℕ) → ℤ → Option ℕ
handle_in handles id = elim (find id handles) [ some handle ↦ handle | none ↦ none ]

unfoldable pub cached_nodes : Map ℤ (Option ℕ) → Set ℤ → NodePool → Map ℤ (Option ℕ) × NodePool
cached_nodes handles [] pool = (handles, pool)
cached_nodes handles ((id, u) ∷ nodes) pool =
    cached_nodes (insert id none handles) nodes (insert id (handle_in handles id) pool)

module _ {Peer : Type 0} where
  abbrev pub scbb_of : ℕ → M Peer Scbb
  scbb_of k = do scbb ← gets (λ s. find k s.master_handle_list); deref scbb

  -- file_meta::get_master_handle
  unfoldable pub master_handle_of_meta : FileMeta → M Peer ℕ
  master_handle_of_meta f = do scbb ← scbb_of f.corresponding_scbb; pure scbb.master_handle

  -- CBB_client::_write_update_file_size
  unfoldable pub write_update_file_size : ℕ → ℕ → ℕ → M Peer (Unit {0})
  write_update_file_size a current_point size = do
    f ← read_meta a
    put_meta a (grow_size (current_point + size) f)

  -- CBB_client::_get_blocks_from_cache
  unfoldable pub choose_cached : FileMeta → ℕ → ℕ → Update → M Peer (Update × Map ℕ ℕ × NodePool)
  choose_cached f start_point size need_update = pure (need_update, [], [])
  choose_cached f start_point size over = do
    scbb ← scbb_of f.corresponding_scbb
    let nodes = cached_nodes scbb.io_node_list f.io_node_list_cache []
    modify λ s. record s {
      master_handle_list =
          set f.corresponding_scbb (record scbb { io_node_list = nodes.0 }) s.master_handle_list;
    }
    let chosen =
        cached_blocks size (blocks_from (get_block_start_point start_point) f.block_list) []
    let ret = if f.need_update then update_meta_only else over
    pure ((if chosen.1 == 0 then ret else need_update), chosen.0, nodes.1)

  unfoldable pub search_cache : FileMeta → ℕ → ℕ → Map ℕ ℕ → M Peer (Update × Map ℕ ℕ × NodePool)
  search_cache f start_point size [] = pure (need_update, [], [])
  search_cache f start_point size (b ∷ blocks) =
      choose_cached f start_point size (write_over_block f start_point size)

  unfoldable pub get_blocks_from_cache : ℕ → ℕ → ℕ → M Peer (Update × Map ℕ ℕ × NodePool)
  get_blocks_from_cache a start_point size = do
    f ← read_meta a
    search_cache f start_point size f.block_list

  module _ (net : Network Peer) where
    -- CBB_client::_get_IOnode_handle; none is the null pointer.
    unfoldable pub node_handle : ℕ → Scbb → ℤ → FilePath → Option (Option ℕ) → M Peer (Option ℕ)
    node_handle k scbb io_node_id ip (some handle) = pure handle
    node_handle k scbb io_node_id ip none = do
      a ← query_new net ip (code Code.new_client ∷ [])
      ret ← pop_int a.1.words
      if same ret.0 success
          then (do
            modify λ s. record s {
              master_handle_list =
                  set k
                    (record scbb { io_node_list = insert io_node_id (some a.0) scbb.io_node_list })
                    s.master_handle_list;
            }
            pure (some a.0))
          else pure none

    unfoldable pub get_io_node_handle : ℕ → ℤ → FilePath → M Peer (Option ℕ)
    get_io_node_handle k io_node_id ip = do
      scbb ← scbb_of k
      node_handle k scbb io_node_id ip (find io_node_id scbb.io_node_list)

    -- The two loops of CBB_client::_parse_blocks_from_master; the first argument is the count.
    unfoldable pub parse_nodes : ℕ → List Word → ℕ → NodePool → M Peer (NodePool × List Word)
    parse_nodes zero words a pool = pure (pool, words)
    parse_nodes (suc count) words a pool = do
      id ← pop_int words
      uri ← pop_string id.1
      f ← read_meta a
      handle ← get_io_node_handle f.corresponding_scbb id.0 uri.0
      put_meta a (record f { io_node_list_cache = set id.0 tt f.io_node_list_cache })
      parse_nodes count uri.1 a (insert id.0 handle pool)

    unfoldable pub parse_block_list : ℕ → List Word → ℕ → Map ℕ ℕ → M Peer (Map ℕ ℕ)
    parse_block_list zero words a blocks = pure blocks
    parse_block_list (suc count) words a blocks = do
      start_point ← pop_size words
      block_size ← pop_size start_point.1
      f ← read_meta a
      cached ← gets (λ s. s.using_io_node_cache)
      put_meta a (
          if cached
          then record f { block_list = insert start_point.0 block_size.0 f.block_list }
          else f)
      parse_block_list count block_size.1 a (insert start_point.0 block_size.0 blocks)

    unfoldable pub parse_blocks_from_master :
        List Word → ℕ → Map ℕ ℕ → NodePool → M Peer (Map ℕ ℕ × NodePool)
    parse_blocks_from_master words a blocks node_pool = do
      nodes ← pop_size words
      pool ← parse_nodes nodes.0 nodes.1 a node_pool
      count ← pop_size pool.1
      found ← parse_block_list count.0 count.1 a blocks
      pure (found, pool.0)

    -- What _get_blocks_from_master sends: the status only for a write
    unfoldable pub blocks_query : ℕ → ℕ → ℕ → ℕ → M Peer (List Word)
    blocks_query mode a start_point size = do
      (if mode == Code.write_file then write_update_file_size a start_point size else pure tt)
      f ← read_meta a
      pure (
          if mode == Code.write_file
          then code mode
            ∷ num f.remote_file_no
            ∷ attr f.file_stat
            ∷ code start_point
            ∷ code size
            ∷ []
          else code mode ∷ num f.remote_file_no ∷ code start_point ∷ code size ∷ [])

    -- CBB_client::_get_blocks_from_master
    unfoldable pub get_blocks_from_master :
        ℕ → ℕ → ℕ → Map ℕ ℕ → NodePool → ℕ → M Peer (Update × Map ℕ ℕ × NodePool)
    get_blocks_from_master a start_point size blocks node_pool mode = do
      f ← read_meta a
      handle ← master_handle_of_meta f
      words ← blocks_query mode a start_point size
      answer ← query net handle words []
      ret ← pop_int answer.words
      if same ret.0 success
          then (do
            file_size ← pop_size ret.1
            g ← read_meta a
            put_meta a (grow_size file_size.0 g)
            found ← parse_blocks_from_master file_size.1 a blocks node_pool
            pure (updated, found.0, found.1))
          else (do set_errno (negate ret.0); pure (refused, blocks, node_pool))

    -- CBB_client::_update_meta
    unfoldable pub update_meta : ℕ → ℕ → ℕ → M Peer Update
    update_meta a start_point size = do
      write_update_file_size a start_point size
      f ← read_meta a
      handle ← master_handle_of_meta f
      send_only net handle (code Code.update_meta ∷ num f.remote_file_no ∷ attr f.file_stat ∷ [])
      pure updated
