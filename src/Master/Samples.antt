-- ===== src/Master/Samples.antt =====
-- A Master with one IOnode, which stores the one file that is open, and one with two IOnodes.
use huron_fs.Prelude.{true, false, some, [], ◌∷◌}
use huron_fs.Prelude.Int.{pos}
use huron_fs.Prelude.Map.{ℕ_key, ℤ_key, path_key, FilePath}
use huron_fs.Master.{Master, MasterFileStat, OpenFileInfo, NodeInfo}
use huron_fs.Master.Start.{new_master}
use huron_fs.Master.Numbers.{mark}
use huron_fs.Master.Nodes.{new_node}
use huron_fs.Master.Files.{default_stat}

abbrev pub path : FilePath
path = 47 ∷ 97 ∷ []

abbrev pub node : NodeInfo
node = record (new_node 3 (99 ∷ []) 1000 12) { stored_files = (pos 4, tt) ∷ [] }

abbrev pub entry : MasterFileStat
entry = record default_stat { opened_file_info = some 0; full_path = path }

abbrev pub opened : OpenFileInfo
opened = record {
  file_no = pos 4;
  block_list = (0, 0) ∷ [];
  io_nodes_set = [];
  primary_replica_node = some 3;
  block_size = 1048576;
  open_count = 1;
  flag = 0;
  file_status = path;
}

abbrev pub one_file : Master
one_file = record (new_master [] (pos 0) 0 0) {
  registered_io_nodes = (3, node) ∷ [];
  file_stat_pool = (path, entry) ∷ [];
  buffered_files = (pos 4, 0) ∷ [];
  heap = (0, opened) ∷ [];
  next_address = 1;
  file_number = 1;
  file_no_pool = mark 4 true (λ n. false);
  current_file_no = 5;
}

-- A second node is registered.
abbrev pub two_nodes : Master
two_nodes = record one_file {
  registered_io_nodes = (3, node) ∷ (5, new_node 5 (98 ∷ []) 1000 13) ∷ [];
}

-- The file is not open.
abbrev pub closed : Master
closed = record (new_master [] (pos 0) 0 0) { file_stat_pool = (path, default_stat) ∷ [] }
