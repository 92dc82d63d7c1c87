-- ===== src/Client/Table.antt =====
-- Descriptors and the files behind them: CBB_client::_get_fid, remote_open, _create_new_file,
-- _open, _delete_open_file and _delete_file_meta of src/Client/src/CBB_client.cpp and
-- src/Client/include/CBB_client.h, and the constructors of src/Client/src/CBB_basic.cpp.
pub mod Run
pub mod Open
use huron_fs.Prelude.{
  ℕ, zero, suc, ◌+◌, ◌-◌, ◌/◌, ◌%◌, Bool, true, false, not, Option, none, some, List, [], ◌∷◌, ◌++◌,
  ltb, leb, ◌==◌, if◌then◌else◌,
}
use huron_fs.Prelude.Int.{ℤ, pos, negsuc}
use huron_fs.Prelude.Map.{ℕ_key, ℤ_key, path_key, Map, FilePath, find, set, insert, erase, same}
use huron_fs.Exec.{Outcome, returns, ◌>>=◌, ◌>>◌, pure, fault, gets, modify, at, deref}
use huron_fs.Master.{Stat, Word, num, text, success, failure}
use huron_fs.Master.Numbers.{scan_twice, mark}
use huron_fs.Client.{Client, M, Network, Answer, FileMeta, OpenedFileInfo}
use huron_fs.Client.Code
use huron_fs.Client.Query.{
  code, set_errno, pop_int, pop_size, recv_attr, query, check_init, master_number_of,
  master_handle_of, negate,
}

-- flag & O_CREAT and flag & O_APPEND: whether a bit, a power of 2, is set
abbrev pub has_flag : ℕ → ℕ → Bool
has_flag flag bit = flag / bit % 2 == 1

-- _fd_to_fid; none is a negative number, which no open file has.
unfoldable pub fd_to_fid : ℕ → Option ℕ
fd_to_fid fd = if ltb fd Code.init_fd then none else some (fd - Code.init_fd)

-- _fid_to_fd
abbrev pub fid_to_fd : ℕ → ℕ
fid_to_fd fid = fid + Code.init_fd

-- file_meta::file_meta
abbrev pub new_file_meta : ℤ → ℕ → Stat → ℕ → FileMeta
new_file_meta remote_file_no block_size file_stat scbb = record {
  remote_file_no = remote_file_no;
  open_count = 0;
  block_size = block_size;
  file_stat = file_stat;
  opened_fd = [];
  corresponding_scbb = scbb;
  io_node_list_cache = [];
  block_list = [];
  need_update = false;
  path = none;
}

-- The position of a descriptor that is new
abbrev pub start_point_of : ℕ → FileMeta → ℕ
start_point_of flag f = if has_flag flag Code.o_append then f.file_stat.st_size else 0

-- The words of an OPEN_FILE query
abbrev pub open_words : FilePath → ℕ → ℕ → List Word
open_words path flag mode =
    code Code.open_file
    ∷ text path
    ∷ ((if has_flag flag Code.o_creat then code flag ∷ [] else []) ++ code mode ∷ [])

module _ {Peer : Type 0} where
  abbrev pub read_meta : ℕ → M Peer FileMeta
  read_meta a = do f ← gets (λ s. find a s.heap); deref f

  abbrev pub put_meta : ℕ → FileMeta → M Peer (Unit {0})
  put_meta a f = modify λ s. record s { heap = set a f s.heap }

  -- _file_list.at(_fd_to_fid(fd))
  unfoldable pub lookup_fd : ℕ → Client Peer → Option OpenedFileInfo
  lookup_fd fd s = elim (fd_to_fid fd) [ none ↦ none | some fid ↦ find fid s.file_list ]

  abbrev pub opened_at : ℕ → M Peer OpenedFileInfo
  opened_at fd = do found ← gets (lookup_fd fd); at found

  -- The fid of a descriptor that _file_list has
  abbrev pub fid_at : ℕ → M Peer ℕ
  fid_at fd = at (fd_to_fid fd)

  -- CBB_client::_get_fid; none is -1.
  unfoldable pub taken : Client Peer → Option ℕ → Outcome (Client Peer) (Option ℕ)
  taken s none = returns none s
  taken s (some fid) =
      returns (some fid) (record s { fid_now = fid; opened_file = mark fid true s.opened_file })

  unfoldable pub get_fid_below : ℕ → M Peer (Option ℕ)
  get_fid_below limit s = taken s (scan_twice limit s.fid_now s.opened_file)

  unfoldable pub get_fid : M Peer (Option ℕ)
  get_fid = get_fid_below Code.max_file

  -- CBB_client::_create_new_file
  unfoldable pub create_new_file : List Word → ℕ → M Peer ℕ
  create_new_file words scbb = do
    remote_file_no ← pop_int words
    block_size ← pop_size remote_file_no.1
    file_stat ← recv_attr block_size.1
    a ← gets (λ s. s.next_address)
    put_meta a (new_file_meta remote_file_no.0 block_size.0 file_stat.0 scbb)
    modify λ s. record s { next_address = suc a }
    pure a

  -- CBB_client::_delete_file_meta; a file that `it` is not set for cannot be erased.
  unfoldable pub delete_file_meta : ℕ → M Peer (Unit {0})
  delete_file_meta a = do
    f ← read_meta a
    if leb f.open_count 1
        then (do
          path ← deref f.path
          modify λ s. record s {
            path_file_meta_map = erase path s.path_file_meta_map;
            heap = erase a s.heap;
          })
        else put_meta a (record f { open_count = f.open_count - 1 })

  -- CBB_client::_delete_open_file, with the destructor of the entry that is erased
  unfoldable pub delete_open_file : ℕ → OpenedFileInfo → M Peer (Unit {0})
  delete_open_file fid file = do
    modify λ s. record s {
      opened_file = mark fid false s.opened_file;
      file_list = erase fid s.file_list;
    }
    f ← read_meta file.file_meta
    put_meta file.file_meta (record f { opened_fd = erase (fid_to_fd fid) f.opened_fd })
    delete_file_meta file.file_meta

  -- The part of CBB_client::_open after the file is known: the constructor of opened_file_info,
  -- the entry, and the position.
  unfoldable pub enter_descriptor : ℕ → ℕ → ℕ → M Peer ℕ
  enter_descriptor fid flag a = do
    f ← read_meta a
    modify λ s. record s {
      file_list =
          insert fid (record { current_point = start_point_of flag f; flag = flag; file_meta = a })
            s.file_list;
    }
    put_meta a
        (record f { open_count = suc f.open_count; opened_fd = set (fid_to_fd fid) tt f.opened_fd })
    set_errno (pos 0)
    pure (fid_to_fd fid)

  module _ (net : Network Peer) where
    -- CBB_client::remote_open; none is the null pointer. Its loop sends one query, since the
    -- number that it compares never changes.
    unfoldable pub remote_open : FilePath → ℕ → ℕ → M Peer (Option ℕ)
    remote_open path flag mode = do
      number ← master_number_of net path
      handle ← master_handle_of number
      a ← query net handle (open_words path flag mode) []
      ret ← pop_int a.words
      if same ret.0 success
          then (do file ← create_new_file ret.1 number; pure (some file))
          else (do set_errno (negate ret.0); pure none)

    -- The file of a path that is not open here: the new entry, and `it`, which a null pointer has not
    unfoldable pub open_remote : FilePath → ℕ → ℕ → M Peer ℕ
    open_remote path flag mode = do
      opened ← remote_open path flag mode
      a ← deref opened
      modify λ s. record s { path_file_meta_map = insert path a s.path_file_meta_map }
      f ← read_meta a
      put_meta a (record f { path = some path })
      pure a

    -- The two tests of CBB_client::_open: whether the path is open here, and whether there was a
    -- descriptor.
    unfoldable pub file_of : FilePath → ℕ → ℕ → Option ℕ → M Peer ℕ
    file_of path flag mode (some a) = pure a
    file_of path flag mode none = open_remote path flag mode

    unfoldable pub open_with : FilePath → ℕ → ℕ → Option ℕ → M Peer (Option ℕ)
    open_with path flag mode none = do set_errno (pos Code.emfile); pure none
    open_with path flag mode (some fid) = do
      known ← gets (λ s. find path s.path_file_meta_map)
      a ← file_of path flag mode known
      fd ← enter_descriptor fid flag a
      pure (some fd)

    -- CBB_client::_open; none is -1.
    unfoldable pub open_once : FilePath → ℕ → ℕ → M Peer (Option ℕ)
    open_once path flag mode = do check_init net; fid ← get_fid; open_with path flag mode fid
