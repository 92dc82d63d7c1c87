-- ===== src/Master/Start.antt =====
-- Master::Master(): the state before the first request.
use huron_fs.Prelude.{ℕ, false, none, []}
use huron_fs.Prelude.Int.{ℤ}
use huron_fs.Prelude.Map.{FilePath}
use huron_fs.Master.{Master}

-- The mount point and the number of the Master, the clock and the user are those of its
-- environment. No number is in use.
abbrev pub new_master : FilePath → ℤ → ℕ → ℕ → Master
new_master mount_point master_number clock owner = record {
  registered_io_nodes = [];
  current_io_node = none;
  file_stat_pool = [];
  buffered_files = [];
  heap = [];
  next_address = 0;
  file_number = 0;
  node_id_pool = λ n. false;
  file_no_pool = λ n. false;
  current_node_number = 0;
  current_file_no = 0;
  mount_point = mount_point;
  master_number = master_number;
  clock = clock;
  owner = owner;
  output = [];
  tasks = [];
}
