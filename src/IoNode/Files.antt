-- ===== src/IoNode/Files.antt =====
-- The files of an IOnode: IOnode::_open_file, _append_block, _append_new_block, _rename, _close_file,
-- _flush_file, _truncate_file, _remove_file, _unlink, remove_files and interval_process of
-- src/IOnode/src/IOnode.cpp. Every result but that of _append_new_block and _flush_file is SUCCESS.
use huron_fs.Prelude.{ℕ, ◌==◌, false, not, ◌||◌, none, some, List, [], ◌∷◌, ◌++◌, if◌then◌else◌}
use huron_fs.Prelude.Int.{ℤ, pos}
use huron_fs.Prelude.Map.{ℕ_key, ℤ_key, Map, FilePath, same, find, set, insert, erase}
use huron_fs.Master.Code
use huron_fs.Exec.{Exception, ◌>>=◌, ◌>>◌, pure, throw, gets, modify, catch, deref, for_each}
use huron_fs.IoNode.{System, M, File, Block, Postponed}
use huron_fs.IoNode.Access.{file_at, read_file, put_file, send, success, failure}
use huron_fs.IoNode.Blocks.{new_block, delete_block}
use huron_fs.IoNode.Storage.{close_remote_file}
use huron_fs.IoNode.Replacement.{add_write_back}

-- file::file
abbrev pub new_file : FilePath → ℕ → File
new_file path exist_flag = record {
  file_path = path;
  exist_flag = exist_flag;
  closed = false;
  dirty = false;
  postponed = Postponed.nothing;
  blocks = [];
  io_node_pool = [];
  read_remote_fd = false;
  write_remote_fd = false;
}

-- The blocks behind a start point
unfoldable pub points : Map ℕ Block → List ℕ
points [] = []
points ((p, _) ∷ m) = p ∷ points m

unfoldable pub points_after : ℕ → Map ℕ Block → List ℕ
points_after start_point [] = []
points_after start_point ((p, _) ∷ m) =
    let rest : List ℕ = points_after start_point m in if p == start_point then points m else rest

-- The loop of IOnode::_remove_file over the blocks
unfoldable pub to_delete : Map ℕ Block → Map ℕ Block
to_delete [] = []
to_delete ((p, b) ∷ m) = (p, record b { postponed = Postponed.to_be_deleted }) ∷ to_delete m

module _ {Disk : Type 0} where
  -- IOnode::_append_block, and one turn of the loop of _append_new_block
  unfoldable pub append_block : ℤ → ℕ × ℕ → M Disk (Unit {0})
  append_block file_no (start_point, data_size) = do
    f ← read_file file_no
    put_file file_no (record f {
      blocks = insert start_point (new_block start_point data_size false f.exist_flag) f.blocks;
    })

  -- A catch of std::out_of_range that answers nothing
  abbrev pub or_on_missing : {A : Type 0} → A → Exception → M Disk A
  or_on_missing a Exception.out_of_range = pure a
  or_on_missing a e = throw e

  unfoldable pub append_blocks : ℤ → List (ℕ × ℕ) → M Disk ℤ
  append_blocks file_no blocks = do
    _ ← file_at file_no
    for_each blocks (append_block file_no)
    pure success

  -- IOnode::_append_new_block
  unfoldable pub append_new_block : ℤ → List (ℕ × ℕ) → M Disk ℤ
  append_new_block file_no blocks = catch (append_blocks file_no blocks) (or_on_missing failure)

  -- IOnode::_connect_to_new_IOnode
  unfoldable pub connect_to_new_io_node : System Disk → ℤ → FilePath → M Disk (Unit {0})
  connect_to_new_io_node os node uri = do
    my_node_id ← gets (λ s. s.my_node_id)
    send (record {
      target = os.connect uri;
      body = pos Code.new_io_node ∷ my_node_id ∷ [];
      segments = [];
    })
    modify λ s. record s { handle_pool = insert node (os.connect uri) s.handle_pool }

  -- IOnode::_get_IOnode_info
  unfoldable pub get_io_node_info : System Disk → ℤ → ℤ × FilePath → M Disk (Unit {0})
  get_io_node_info os file_no (node, uri) = do
    my_node_id ← gets (λ s. s.my_node_id)
    known ← gets (λ s. find node s.handle_pool)
    (if same my_node_id node then pure tt else do
      (elim known [ some _ ↦ pure tt | none ↦ connect_to_new_io_node os node uri ])
      f ← read_file file_no
      put_file file_no (record f { io_node_pool = insert node tt f.io_node_pool }))

  -- IOnode::_get_replica_node_info
  unfoldable pub get_replica_node_info : System Disk → ℤ → List (ℤ × FilePath) → M Disk (Unit {0})
  get_replica_node_info os file_no nodes = for_each nodes (get_io_node_info os file_no)

  -- IOnode::_open_file
  unfoldable pub open_file :
      System Disk → ℤ → ℕ → FilePath → List (ℕ × ℕ) → List (ℤ × FilePath) → M Disk (Unit {0})
  open_file os file_no exist_flag path blocks nodes = do
    known ← gets (λ s. find file_no s.files)
    (elim known [
      | none ↦ do
        put_file file_no (new_file path exist_flag)
        for_each blocks (append_block file_no)
        get_replica_node_info os file_no nodes
      | some f ↦ put_file file_no (record f { closed = false })
    ])

  -- IOnode::_close_file
  unfoldable pub close_file : ℤ → M Disk (Unit {0})
  close_file file_no = do
    known ← gets (λ s. find file_no s.files)
    (elim known [
      | none ↦ pure tt
      | some f ↦ elim f.postponed [
        | Postponed.to_be_deleted ↦ pure tt
        | _ ↦
            if f.read_remote_fd || f.write_remote_fd
            then put_file file_no (record f { postponed = Postponed.to_be_closed })
            else pure tt
      ]
    ])

  -- IOnode::_rename
  unfoldable pub rename : ℤ → FilePath → M Disk (Unit {0})
  rename file_no path = do
    known ← gets (λ s. find file_no s.files)
    (elim known [ none ↦ pure tt | some f ↦ put_file file_no (record f { file_path = path }) ])

  -- IOnode::_flush_file: a file that is there
  unfoldable pub flush_file : ℤ → M Disk ℤ
  flush_file file_no = catch (do _ ← file_at file_no; pure success) (or_on_missing failure)

  -- IOnode::_truncate_file
  unfoldable pub truncate_file : ℤ → ℕ → ℕ → M Disk (Unit {0})
  truncate_file file_no start_point available_size = do
    f ← file_at file_no
    b ← deref (find start_point f.blocks)
    put_file file_no
        (record f { blocks = set start_point (record b { data_size = available_size }) f.blocks })
    for_each (points_after start_point f.blocks) λ p. delete_block (file_no, p)

  -- IOnode::_remove_file, IOnode::_unlink
  unfoldable pub remove_file : ℤ → M Disk (Unit {0})
  remove_file file_no = do
    known ← gets (λ s. find file_no s.files)
    (elim known [
      | none ↦ pure tt
      | some f ↦ elim f.postponed [
        | Postponed.to_be_deleted ↦ pure tt
        | _ ↦ do
          put_file file_no
              (record f { blocks = to_delete f.blocks; postponed = Postponed.to_be_deleted })
          modify λ s. record s { remove_file_list = s.remove_file_list ++ file_no ∷ [] }
      ]
    ])

  -- _files.erase, with file::~file
  unfoldable pub delete_file : ℤ → M Disk (Unit {0})
  delete_file file_no = do
    f ← read_file file_no
    for_each (points f.blocks) λ p. delete_block (file_no, p)
    modify λ s. record s { files = erase file_no s.files }

  -- IOnode::remove_files
  unfoldable pub remove_files : M Disk (Unit {0})
  remove_files = do
    idle ← gets (λ s. s.idle)
    removed ← gets (λ s. s.remove_file_list)
    (if not idle then pure tt else do
      for_each removed λ file_no. do close_remote_file file_no; delete_file file_no
      modify λ s. record s { remove_file_list = [] })

  -- IOnode::interval_process
  unfoldable pub interval_process : M Disk (Unit {0})
  interval_process = do remove_files; add_write_back
