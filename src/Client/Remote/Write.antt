-- ===== src/Client/Remote/Write.antt =====
-- CBB_client::_write without the cache of blocks, from the descriptor to the IOnode.
use huron_fs.Prelude.{ℕ, ◌+◌, true}
use huron_fs.Prelude.Map.{ℕ_key, ℤ_key, Map, set}
use huron_fs.Client.{Client, FileMeta, OpenedFileInfo}
use huron_fs.Client.Code
use huron_fs.Client.Remote.Locate.{Placed, placed_meta}

-- A file_meta that _update_access_time has set the times of
abbrev pub touched : ℕ → FileMeta → FileMeta
touched now f = record f { file_stat = record f.file_stat { st_time = now }; need_update = true }

-- The client after a write: the position behind the bytes, the file's times and size, its IOnode
abbrev pub after_write :
    {Peer : Type 0}
    → Client Peer
    → ℕ
    → OpenedFileInfo
    → FileMeta
    → Placed
    → ℕ
    → ℕ
    → Peer
    → Client Peer
after_write s fid file f b now size q = record s {
  peer = q;
  heap = set file.file_meta (placed_meta b (file.current_point + size) (touched now f)) s.heap;
  file_list = set fid (record file { current_point = file.current_point + size }) s.file_list;
}
