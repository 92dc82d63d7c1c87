-- ===== src/IoNode/Storage.antt =====
-- The remote files below the blocks: IOnode::_open_remote_file, _check_directory,
-- _close_remote_file, _read_from_storage and _write_to_storage of src/IOnode/src/IOnode.cpp.
pub mod Failure
pub mod Seek
use huron_fs.Prelude.{
  ℕ, zero, suc, ◌+◌, ◌-◌, Bool, true, false, not, ◌||◌, Option, none, some, List, [], ◌∷◌, ◌++◌,
  length, take, drop, ◌==◌, leb, if◌then◌else◌,
}
use huron_fs.Prelude.Int.{ℤ}
use huron_fs.Prelude.Map.{ℕ_key, ℤ_key, FilePath}
use huron_fs.Prelude.Memory.{Memory, put, slice}
use huron_fs.Exec.{
  Exception, Outcome, returns, throws, undefined, ◌>>=◌, ◌>>◌, pure, throw, fault, gets, modify,
  deref,
}
use huron_fs.Swap.{assign}
use huron_fs.IoNode.{
  IoNode, System, OpenMode, M, File, Block, BlockId, Postponed, Directory, max_open_file_count,
}
use huron_fs.IoNode.Access.{read_block, put_block, read_file, put_file}

-- real_path.find_last_of("/\\")
unfoldable pub last_slash : FilePath → Option ℕ
last_slash [] = none
last_slash (c ∷ path) =
    let later : Option ℕ = last_slash path in
    elim later [ some n ↦ some (suc n) | none ↦ if (c == 47) || (c == 92) then some 0 else none ]

-- The path that IOnode::_check_directory opens
unfoldable pub directory_of : FilePath → FilePath
directory_of path = elim (last_slash path) [ none ↦ path | some n ↦ take n path ]

-- open_mode: O_RDONLY|O_DIRECT for READ_FILE, O_WRONLY|O_CREAT|O_DIRECT for WRITE_FILE
unfoldable pub open_mode : Bool → OpenMode
open_mode writing = record { writes = writing; creat = writing; direct = true }

-- The descriptor of a file for reading (READ_FILE) or for writing (WRITE_FILE)
abbrev pub is_open : File → Bool → Bool
is_open f writing = if writing then f.write_remote_fd else f.read_remote_fd

abbrev pub set_open : File → Bool → File
set_open f writing =
    if writing then record f { write_remote_fd = true } else record f { read_remote_fd = true }

module _ {Disk : Type 0} where
  -- IOnode::_get_real_path
  abbrev pub real_path : FilePath → IoNode Disk → FilePath
  real_path path s = s.mount_point ++ path

  abbrev pub one_closed : M Disk (Unit {0})
  one_closed = modify λ s. record s { open_file_count = s.open_file_count - 1 }

  -- IOnode::_close_remote_file
  unfoldable pub close_remote_file : ℤ → M Disk (Unit {0})
  close_remote_file file_no = do
    f ← read_file file_no
    (if f.read_remote_fd then one_closed else pure tt)
    (if f.write_remote_fd then one_closed else pure tt)
    put_file file_no (record f { read_remote_fd = false; write_remote_fd = false })

  module _ (os : System Disk) where
    -- *fd = open64(...)
    unfoldable pub opened : ℤ → Bool → Option Disk → M Disk (Unit {0})
    opened file_no writing none = throw Exception.runtime_error
    opened file_no writing (some disk) = do
      modify λ s. record s { disk = disk }
      f ← read_file file_no
      put_file file_no (set_open f writing)

    -- while(-1 == _check_directory(real_path)), which never ends where the directory is missing
    unfoldable pub check_directory : FilePath → M Disk (Unit {0})
    check_directory path = do
      d ← gets (λ s. os.directory s.disk (directory_of path))
      (elim d [
        | Directory.present ↦ pure tt
        | Directory.missing ↦ fault
        | Directory.refused ↦ throw Exception.runtime_error
      ])

    -- IOnode::_open_remote_file
    unfoldable pub open_remote_file : ℤ → FilePath → Bool → M Disk (Unit {0})
    open_remote_file file_no path writing = do
      f ← read_file file_no
      count ← gets (λ s. s.open_file_count)
      (if is_open f writing
          then pure tt
          else if leb max_open_file_count count
          then throw Exception.runtime_error
          else do
            modify λ s. record s { open_file_count = s.open_file_count + 1 }
            check_directory path
            disk ← gets (λ s. os.opens s.disk path (open_mode writing))
            opened file_no writing disk)

    -- The loop of readv: `base` is where the next bytes go, `position` the file's offset and `left`
    -- the bytes still wanted, of which each turn but the last takes one. The result is the memory
    -- and the bytes not read.
    unfoldable pub read_vector : ℕ → Disk → FilePath → ℕ → ℕ → ℕ → Memory → Memory × ℕ
    read_vector zero disk path base position left m = (m, left)
    read_vector (suc fuel) disk path base position left m =
        let got : List ℕ = os.readv disk path position left in
        let rest : Memory × ℕ =
          read_vector fuel disk path (length got) (position + length got) (left - length got)
            (put m base got) in
        if (left == 0) || (length got == 0) then (m, left) else rest

    -- IOnode::_read_from_storage; the result is the number of bytes read. Where the seek fails, the
    -- file stays open.
    unfoldable pub read_from_storage : BlockId → M Disk ℕ
    read_from_storage id = do
      b ← read_block id
      f ← read_file id.0
      path ← gets (real_path f.file_path)
      open_remote_file id.0 path false
      sought ← gets (λ s. os.lseek s.disk path b.start_point)
      (if not sought then pure 0 else do
        e ← deref b.elem
        got ←
            gets λ s.
              read_vector (suc b.data_size) s.disk path 0 b.start_point b.data_size (s.memory e)
        modify λ s. record s { memory = assign e got.0 s.memory }
        close_remote_file id.0
        pure (b.data_size - got.1))

    -- The loop of write; the result is the bytes not written. The fuel is as many turns as bytes.
    unfoldable pub write_vector : ℕ → FilePath → ℕ → List ℕ → M Disk ℕ
    write_vector zero path position bytes = pure (length bytes)
    write_vector (suc fuel) path position bytes = if length bytes == 0 then pure 0 else do
      r ← gets (λ s. os.write s.disk path position bytes)
      written ← deref r
      modify λ s. record s { disk = written.1 }
      (if written.0 == 0
          then pure (length bytes)
          else write_vector fuel path (position + written.0) (drop written.0 bytes))

    -- The bytes of a block; without memory there may be none.
    abbrev pub data_of : Block → M Disk (List ℕ)
    data_of b = elim b.elem [
      | some e ↦ gets (λ s. slice (s.memory e) 0 b.data_size)
      | none ↦ if b.data_size == 0 then pure [] else fault
    ]

    -- IOnode::_write_to_storage from the seek on. Where the seek fails, the block stays marked as
    -- being written back, and the file open.
    unfoldable pub write_data : BlockId → FilePath → M Disk ℕ
    write_data id path = do
      b ← read_block id
      put_block id (record b { writing_back = true })
      sought ← gets (λ s. os.lseek s.disk path b.start_point)
      (if not sought then throw Exception.runtime_error else do
        bytes ← data_of b
        left ← write_vector (suc b.data_size) path b.start_point bytes
        put_block id (record b { writing_back = false })
        close_remote_file id.0
        pure (b.data_size - left))

    -- IOnode::_write_to_storage; the result is the number of bytes written.
    unfoldable pub write_to_storage : BlockId → M Disk ℕ
    write_to_storage id = do
      b ← read_block id
      (if b.receiving_data then pure 0 else do
        put_block id (record b { dirty = false })
        f ← read_file id.0
        path ← gets (real_path f.file_path)
        open_remote_file id.0 path true
        (elim b.postponed [
          | Postponed.to_be_deleted ↦ do close_remote_file id.0; pure 0
          | _ ↦ write_data id path
        ]))
