-- ===== src/Client/Samples.antt =====
-- Sample states: a client of one Master and one IOnode, which are one server with one file.
use huron_fs.Prelude.{
  ℕ, ◌+◌, ◌≡◌, refl, true, false, Option, none, some, List, [], ◌∷◌, ◌==◌, if◌then◌else◌,
}
use huron_fs.Prelude.Int.{pos, negsuc}
use huron_fs.Prelude.Map.{ℕ_key, ℤ_key, path_key, FilePath, find}
use huron_fs.Prelude.Memory.{Memory, put, slice}
use huron_fs.Master.{attr, Stat, Word, num}
use huron_fs.Client.{Client, Network, Answer, FileMeta, OpenedFileInfo, Scbb}
use huron_fs.Client.Query.{code}
use huron_fs.Client.Query.Laws.{MasterOf}
use huron_fs.Client.Remote.Locate.{Placed, block_words}
use huron_fs.Client.Table.{new_file_meta}
use huron_fs.Client.Table.Run.{Remote, remote_words}

abbrev pub status : Stat
status = record { st_size = 10; st_mode = 33188; st_blksize = 4096; st_time = 1; st_owner = 0 }

abbrev pub remote : Remote
remote = record { file_no = pos 2; block_size = 1048576; file_stat = status }

abbrev pub answer : List Word → List ℕ → Option Answer
answer words bytes = some (record { words = words; bytes = bytes })

-- Where the Master puts a write
abbrev pub placed : Placed
placed = record { file_size = 10; node_id = pos 1; uri = 49 ∷ []; start = 0; block_size = 10 }

-- Open, close, write and read; other requests are refused.
abbrev pub serve : ℕ → List Word → List ℕ → Memory → Option Answer × Memory
serve c (num file_no ∷ num (pos start) ∷ num (pos offset) ∷ num (pos n) ∷ []) bytes m =
    if c == 7
    then (answer (code 0 ∷ []) [], put m (start + offset) bytes)
    else (answer (code 0 ∷ []) (slice m (start + offset) n), m)
serve c (num file_no ∷ attr new ∷ words) bytes m =
    (answer (code 0 ∷ code 10 ∷ block_words placed) [], m)
serve c words bytes m =
    if c == 5
    then (answer (remote_words remote []) [], m)
    else (answer (num (if c == 9 then pos 0 else negsuc 0) ∷ []) [], m)

abbrev pub ask_server : List Word → List ℕ → Memory → Option Answer × Memory
ask_server (num (pos c) ∷ words) bytes m = serve c words bytes m
ask_server words bytes m = (none, m)

abbrev pub net : Network Memory
net = record {
  ask = λ handle words bytes m. ask_server words bytes m;
  tell = λ handle words m. m;
  connect = λ uri words m. (none, m);
  hash = λ path. 7;
  time = λ m. 100;
}

-- A Master that refuses everything, and one that does not answer
abbrev pub refusing : Network Memory
refusing = record net { ask = λ handle words bytes m. (answer (num (negsuc 1) ∷ []) [], m) }

abbrev pub silent : Network Memory
silent = record net { ask = λ handle words bytes m. (none, m) }

abbrev pub scbb : Scbb
scbb = record { io_node_list = (pos 1, some 4) ∷ []; id = 0; master_handle = 3 }

abbrev pub path : FilePath
path = 47 ∷ 97 ∷ []

abbrev pub zeroes : Memory
zeroes i = 0

abbrev pub client : Client Memory
client = record {
  fid_now = 0;
  file_list = [];
  opened_file = λ n. false;
  path_file_meta_map = [];
  heap = [];
  next_address = 0;
  thread_started = true;
  master_handle_list = (0, scbb) ∷ [];
  master_ip_list = none;
  master_total = some 1;
  using_io_node_cache = true;
  errno = pos 0;
  peer = zeroes;
}

abbrev pub meta : FileMeta
meta = record (new_file_meta (pos 2) 1048576 status 0) {
  open_count = 1;
  opened_fd = (1000, tt) ∷ [];
  io_node_list_cache = (pos 1, tt) ∷ [];
  block_list = (0, 10) ∷ [];
  path = some path;
}

abbrev pub file : OpenedFileInfo
file = record { current_point = 0; flag = 0; file_meta = 0 }

abbrev pub reader : Client Memory
reader = record client {
  fid_now = 0;
  file_list = (0, file) ∷ [];
  path_file_meta_map = (path, 0) ∷ [];
  heap = (0, meta) ∷ [];
  next_address = 1;
}

pub master_found : find 0 client.master_handle_list ≡ some scbb
unfolding find
master_found = refl

abbrev pub master : MasterOf net path client
master = record { started = refl; others = 0; total = refl; scbb = scbb; master = master_found }

abbrev pub refusing_master : MasterOf refusing path client
refusing_master = record {
  started = refl;
  others = 0;
  total = refl;
  scbb = scbb;
  master = master_found;
}

abbrev pub silent_master : MasterOf silent path client
silent_master = record {
  started = refl;
  others = 0;
  total = refl;
  scbb = scbb;
  master = master_found;
}

abbrev pub writer : Client Memory
writer = record reader { using_io_node_cache = false }
