-- ===== src/Client/Transfer.antt =====
-- The transfers between the client and the IOnode: CBB_client::_write_to_IOnode,
-- _read_from_IOnode and find_start_point of src/Client/src/CBB_client.cpp.
--
-- Both loops send a query again for as long as the IOnode refuses it, so they need not end; here
-- they take at most `fuel` queries, and are undefined after that.
pub mod Queries
pub mod Start
pub mod Sent
use huron_fs.Prelude.{
  ℕ, zero, suc, ◌+◌, ◌-◌, Bool, true, false, Option, none, some, List, [], ◌∷◌, ◌++◌, length, take,
  drop, ltb, leb, ◌==◌, if◌then◌else◌,
}
use huron_fs.Prelude.Int.{ℤ, pos, negsuc}
use huron_fs.Prelude.Map.{ℕ_key, ℤ_key, Map, find, same}
use huron_fs.Exec.{◌>>=◌, ◌>>◌, pure, fault, deref}
use huron_fs.Master.{Word, num, success}
use huron_fs.Client.{M, Network, FileMeta}
use huron_fs.Client.Code
use huron_fs.Client.Query.{code, pop_int, query}
use huron_fs.Client.Blocks.{NodePool}

-- begin(m)->first and begin(m)->second
abbrev pub first_key : {V : Type 0} → Map ℕ V → Option ℕ
first_key [] = none
first_key ((k, v) ∷ m) = some k

abbrev pub first_handle : NodePool → Option ℕ
first_handle [] = none
first_handle ((id, handle) ∷ m) = handle

-- a - b as an off64_t
abbrev pub offset_from : ℕ → ℕ → ℤ
offset_from b a = if leb b a then pos (a - b) else negsuc (b - suc a)

-- The loop of CBB_client::find_start_point, from ret on
unfoldable pub scan_start_point : ℕ → Map ℕ ℕ → ℕ → ℕ
scan_start_point end_start_point [] ret = ret
scan_start_point end_start_point ((k, n) ∷ blocks) ret =
    let rest : ℕ = scan_start_point end_start_point blocks k in
    if ltb end_start_point k then ret else rest

-- CBB_client::find_start_point; `first` is begin(blocks)->first.
unfoldable pub find_start_point : ℕ → Map ℕ ℕ → ℕ → ℕ → ℕ
find_start_point first blocks start_point update_size =
    scan_start_point (start_point + update_size) blocks first

abbrev pub transfer_size : ℕ → ℕ
transfer_size left = if ltb left Code.max_transfer_size then left else Code.max_transfer_size

abbrev pub transfer_words : ℕ → ℤ → ℕ → ℕ → ℕ → List Word
transfer_words mode file_no start_point current_point size =
    code mode
    ∷ num file_no
    ∷ code start_point
    ∷ num (offset_from start_point current_point)
    ∷ code size
    ∷ []

module _ {Peer : Type 0} (net : Network Peer) (handle : ℕ) (file_no : ℤ) where
  module _ (first : ℕ) (blocks : Map ℕ ℕ) where
    -- The loop of _write_to_IOnode; the result is what it adds to `ans`.
    unfoldable pub write_pieces : ℕ → ℕ → ℕ → List ℕ → M Peer ℕ
    write_pieces fuel current_point start_point [] = pure 0
    write_pieces zero current_point start_point (b ∷ bytes) = fault
    write_pieces (suc fuel) current_point start_point (b ∷ bytes) = do
      let buffer : List ℕ = b ∷ bytes
      let size : ℕ = transfer_size (length buffer)
      a ←
          query net handle (transfer_words Code.write_file file_no start_point current_point size)
            (take size buffer)
      ret ← pop_int a.words
      if same ret.0 success
          then (do
            more ←
                write_pieces fuel (current_point + size)
                  (find_start_point first blocks start_point size) (drop size buffer)
            pure (size + more))
          else write_pieces fuel current_point start_point buffer

    -- The loop of _read_from_IOnode, on the bytes that are left to read; the result is the bytes
    -- that it copies to the buffer. More bytes than were asked for do not fit the buffer.
    unfoldable pub read_pieces : ℕ → ℕ → ℕ → ℕ → M Peer (List ℕ)
    read_pieces fuel current_point start_point zero = pure []
    read_pieces zero current_point start_point (suc left) = fault
    read_pieces (suc fuel) current_point start_point (suc left) = do
      let size : ℕ = transfer_size (suc left)
      a ← query net handle (transfer_words Code.read_file file_no start_point current_point size) []
      ret ← pop_int a.words
      if same ret.0 success
          then (do
            let got : ℕ = length a.bytes
            if ltb size got then fault else (do
              more ←
                  read_pieces fuel (current_point + got)
                    (find_start_point first blocks start_point got) (suc left - got)
              pure (a.bytes ++ more)))
          else read_pieces fuel current_point start_point (suc left)

-- A read that reaches over the end of the file ends there.
abbrev pub readable : FileMeta → ℕ → ℕ → ℕ
readable f offset size =
    if ltb f.file_stat.st_size (size + offset) then f.file_stat.st_size - offset else size

module _ {Peer : Type 0} (net : Network Peer) (fuel : ℕ) where
  -- CBB_client::_write_to_IOnode
  unfoldable pub write_to_io_node : FileMeta → Map ℕ ℕ → NodePool → List ℕ → ℕ → M Peer ℕ
  write_to_io_node f blocks node_pool buffer offset = do
    first ← deref (first_key blocks)
    handle ← deref (first_handle node_pool)
    write_pieces net handle f.remote_file_no first blocks fuel offset first buffer

  -- CBB_client::_read_from_IOnode
  unfoldable pub read_from_io_node : FileMeta → Map ℕ ℕ → NodePool → ℕ → ℕ → M Peer (List ℕ)
  read_from_io_node f blocks node_pool offset size = do
    first ← deref (first_key blocks)
    handle ← deref (first_handle node_pool)
    read_pieces net handle f.remote_file_no first blocks fuel offset first (readable f offset size)
