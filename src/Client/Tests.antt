-- ===== src/Client/Tests.antt =====
-- The theorems about the client at sample states.
use huron_fs.Prelude.{ℕ, ◌+◌, ◌≤◌, ◌<◌, ◌≡◌, refl, true, false, none, some, List, [], ◌∷◌, arith}
use huron_fs.Prelude.Int.{pos, negsuc}
use huron_fs.Prelude.Map.{ℕ_key, ℤ_key, path_key, Map, find}
use huron_fs.Prelude.Memory.{Memory, put}
use huron_fs.Exec.{returns, undefined}
use huron_fs.Master.{failure}
use huron_fs.Master.Numbers.{scan, scan_twice}
use huron_fs.Client.{Client}
use huron_fs.Client.Code
use huron_fs.Client.Query.{holds_handle, find_scbb_by_handle}
use huron_fs.Client.Table.{open_once}
use huron_fs.Client.Table.Open.{open_once-Refused}
use huron_fs.Client.Blocks.{NodePool, blocks_from, cached_blocks}
use huron_fs.Client.Transfer.{write_to_io_node}
use huron_fs.Client.Transfer.Sent.{write_to_io_node-Delivered}
use huron_fs.Client.Remote.{read_once}
use huron_fs.Client.Remote.Cached.{IsCached, read_once-Cached}
use huron_fs.Client.Descriptor.{close_once}
use huron_fs.Client.Descriptor.OpenClose.{close_once-open_once}
use huron_fs.Client.Retry.{client_rmdir, client_mkdir}
use huron_fs.Client.Retry.Laws.{client_rmdir-Lost}
use huron_fs.Client.Samples.{
  client, file, master, master_found, meta, net, path, reader, refusing, refusing_master, remote,
  scbb, silent, silent_master, zeroes,
}
use huron_fs.Client.Stream.{StreamInfo, Stream, cur_file_off}
use huron_fs.Client.Stream.Calls.{write_stream, seek_stream, read_stream}
use huron_fs.Client.Stream.RoundTrip.{read_stream-write_stream}

first_free : scan_twice Code.max_file client.fid_now client.opened_file ≡ some 0
unfolding scan_twice scan
first_free = refl

no_path : find path client.path_file_meta_map ≡ none
unfolding find
no_path = refl

open_once-Refused_example : open_once refusing path 2 438 client ≡ undefined
open_once-Refused_example =
    open_once-Refused refusing path 2 438 0 client refusing_master (negsuc 1) [] [] zeroes
      first_free no_path refl refl

no_fid : find 0 client.file_list ≡ none
unfolding find
no_fid = refl

no_address : find client.next_address client.heap ≡ none
unfolding find
no_address = refl

close_once-open_once_example :
    (t : Client Memory) × (open_once net path 2 438 client ≡ returns (some 1000) t)
    × (close_once net 1000 t
        ≡ returns
            (pos 0)
            (record client { fid_now = 0; next_address = 1; errno = pos 0; peer = zeroes }))
close_once-open_once_example =
    close_once-open_once net path 2 438 0 client master remote [] [] [] [] zeroes zeroes first_free
      (omega arith) no_fid no_address no_path refl refl

abbrev three : List ℕ
three = 5 ∷ 6 ∷ 7 ∷ []

abbrev blocks : Map ℕ ℕ
blocks = (0, 10) ∷ []

abbrev pool : NodePool
pool = (pos 1, some 4) ∷ []

write_to_io_node-Delivered_example :
    write_to_io_node net 1 meta blocks pool three 2 client
    ≡ returns 3 (record client { peer = put zeroes 2 three })
write_to_io_node-Delivered_example =
    write_to_io_node-Delivered net 4 meta blocks pool 0 1 2 three client (put zeroes 2 three) refl
      refl (refl, tt) (omega arith) (omega arith) (omega arith)
      ([], [], put zeroes 2 three, refl, refl)

file_found : find 0 reader.file_list ≡ some file
unfolding find
file_found = refl

meta_found : find 0 reader.heap ≡ some meta
unfolding find
meta_found = refl

all_cached : (cached_blocks 10 (blocks_from 0 meta.block_list) []).1 ≡ 0
unfolding cached_blocks blocks_from
all_cached = refl

ten_inside : 10 + 0 ≤ 10
ten_inside = omega arith

ten_positive : 0 < 10
ten_positive = omega arith

abbrev cached : IsCached meta 0 10
cached = record { inside = ten_inside; clean = refl; some_bytes = ten_positive; all = all_cached }

read_once-Cached_example :
    (t : Client Memory) × (read_once net 10 1000 10 reader ≡ returns (some []) t)
    × (t.errno ≡ pos 22)
    × (t.peer ≡ zeroes)
read_once-Cached_example =
    read_once-Cached net 10 0 10 file meta scbb reader refl refl file_found meta_found cached
      master_found

no_io_node : find_scbb_by_handle 3 client.master_handle_list ≡ none
unfolding find_scbb_by_handle holds_handle
no_io_node = refl

client_rmdir-Lost_example :
    (p : Memory) × (q : Memory) × (client_mkdir silent path 493 client
      ≡ returns failure (record client { peer = p }))
    × (client_rmdir silent path client ≡ returns (pos 0) (record client { peer = q }))
client_rmdir-Lost_example =
    client_rmdir-Lost silent path 493 client silent_master (λ words bytes p. (p, refl)) no_io_node

-- A stream open for reading and writing with four bytes in its buffer, the position behind the first
abbrev info : StreamInfo
info = record {
  dirty_flag = false;
  buffer_flag = true;
  fd = 1000;
  err = 0;
  open_flag = 2;
  open_mode = 438;
  buf = zeroes;
  cur_buf_off = 1;
  buffer_size = 1048576;
  buffered_data_size = 4;
  file_size = 10;
  buf_file_off = 0;
}

abbrev stream : Stream Memory
stream = record { client = reader; info = info }

read_stream-write_stream_example :
    (t u v : Stream Memory) × (write_stream net 3 three stream ≡ returns (some 3) t)
    × (seek_stream net 3 1 0 t ≡ returns (pos 1) u)
    × (read_stream net 3 3 u ≡ returns (some three) v)
    × (cur_file_off t.info ≡ 4)
    × (cur_file_off v.info ≡ 4)
    × (v.client ≡ reader)
read_stream-write_stream_example =
    read_stream-write_stream net 3 0 file meta three stream refl file_found meta_found refl refl
      refl (omega arith) (omega arith)
