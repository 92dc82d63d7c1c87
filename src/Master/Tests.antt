-- ===== src/Master/Tests.antt =====
-- The theorems on the Master, at Masters with one file and at most two IOnodes.
use huron_fs.Prelude.{◌≡◌, refl, some, [], ◌∷◌, none, arith}
use huron_fs.Prelude.Int.{pos}
use huron_fs.Prelude.Map.{ℕ_key, ℤ_key, path_key, FilePath, find, insert, set}
use huron_fs.Master.{Master, returns, undefined, success, Stat, failure, myself}
use huron_fs.Master.Numbers.{mark, max_file_number, scan_twice}
use huron_fs.Master.Nodes.{new_node, wrap}
use huron_fs.Master.Files.{default_stat, remove_file}
use huron_fs.Master.Files.Remove.{Removed, remove_file-Removed}
use huron_fs.Master.Handlers.{cleared, parse_open_file, parse_write_file}
use huron_fs.Master.Failure.{recreate_replica}
use huron_fs.Master.Failure.Lost.{recreate_replica-Lost}
use huron_fs.Master.Samples.{path, node, entry, opened, one_file, two_nodes, closed}
use huron_fs.Master.Numbers.Laws.{scan_twice-current}
use huron_fs.Master.Nodes.Round.{ids, turns, turns-ids}
use huron_fs.Master.Blocks.{
  next_key, select_block_set, select_blocks, allocate_new_blocks_for_writing, write_blocks,
  write_block, append_block,
}
use huron_fs.Master.Handlers.Open.{mode_of, Opened, parse_open_file-Opened}
use huron_fs.Master.Handlers.OpenFails.{Stranded, parse_open_file-Stranded}
use huron_fs.Master.Handlers.Write.{block_answer, written, updated, parse_write_file-Answers}
use huron_fs.Master.Entries.{parse_rename}
use huron_fs.Master.Entries.Rename.{Moved, parse_rename-Moved}

remove_file-Removed_example :
    (s' : Master) × (remove_file path one_file ≡ returns success s') × Removed path 4 3 one_file s'
unfolding find
remove_file-Removed_example =
    remove_file-Removed one_file path entry 0 4 3 opened node refl refl refl refl refl refl refl

recreate_replica-Lost_example : recreate_replica 3 (pos 4) two_nodes ≡ undefined
unfolding find
recreate_replica-Lost_example =
    recreate_replica-Lost two_nodes 3 0 (pos 4) opened 3 node
      ((5, new_node 5 (98 ∷ []) 1000 13) ∷ []) refl refl refl refl refl

-- The first open of a path, on the node at the start of the nodes.
abbrev other : FilePath
other = 47 ∷ 98 ∷ []

free_number : scan_twice max_file_number 5 one_file.file_no_pool ≡ some 5
unfolding mark
free_number = scan_twice-current max_file_number 5 one_file.file_no_pool (omega arith) refl

parse_open_file-Opened_example :
    (s' : Master) × (parse_open_file 12 other 0o101 0o644 one_file ≡ returns success s')
    × Opened 12 5 3 (cleared 0o101) (mode_of 0o101 0o644) other node one_file s'
unfolding find wrap
parse_open_file-Opened_example =
    parse_open_file-Opened one_file 12 other 5 3 0o101 0o644 node refl refl refl free_number refl
      refl

parse_open_file-Stranded_example :
    (s' : Master) × (parse_open_file 12 other 0 0 (record one_file { registered_io_nodes = [] })
      ≡ returns failure s')
    × Stranded 12 5
        (cleared 0)
        (mode_of 0 0)
        other
        (record one_file { registered_io_nodes = [] })
        s'
unfolding find
parse_open_file-Stranded_example =
    parse_open_file-Stranded (record one_file { registered_io_nodes = [] }) 12 other 5 0 0 refl refl
      refl free_number refl

abbrev full : Master
full = record one_file { file_number = max_file_number }

parse_rename-Moved_example :
    (s' : Master) × (parse_rename 12 path other myself closed ≡ returns success s')
    × Moved 12 path other default_stat closed s'
unfolding find
parse_rename-Moved_example =
    parse_rename-Moved closed 12 path other default_stat (λ e. ground arith) refl refl refl

abbrev some_stat : Stat
some_stat = record { st_size = 7; st_mode = 0; st_blksize = 0; st_time = 0; st_owner = 0 }

parse_write_file-Answers_example :
    parse_write_file 12 (pos 4) some_stat 0 7 one_file
    ≡ returns success (record one_file {
      heap = set 0 (written 0 7 opened) one_file.heap;
      file_stat_pool = set path (updated some_stat entry) one_file.file_stat_pool;
      output = block_answer 12 7 3 node ((0, 7) ∷ []) ∷ [];
    })
unfolding find select_block_set select_blocks allocate_new_blocks_for_writing write_blocks
    write_block append_block insert set next_key
parse_write_file-Answers_example =
    parse_write_file-Answers one_file 12 0 0 7 3 (pos 4) some_stat opened entry node refl refl refl
      refl refl (omega arith) (omega arith) (omega arith)

turns-ids_example :
    turns 2 two_nodes
    ≡ returns (ids two_nodes.registered_io_nodes) (record two_nodes { current_io_node = none })
turns-ids_example = turns-ids two_nodes (omega arith) refl
