-- ===== src/Master/Files/Remove.antt =====
-- What _remove_file takes away.
use huron_fs.Prelude.{
  ℕ, ◌-◌, ◌≡◌, ◌≢◌, refl, ap, ◌∙◌, Option, false, none, some, [], ◌∷◌, ◌++◌, arith,
}
use huron_fs.Prelude.Int.{ℤ, pos}
use huron_fs.Prelude.Map.{
  ℕ_key, ℤ_key, path_key, FilePath, find, set, erase, find-erase, find-erase_self, same_iff,
}
use huron_fs.Master.{
  Master, MasterFileStat, OpenFileInfo, NodeInfo, Message, to_node, num, returns, success,
}
use huron_fs.Master.Code
use huron_fs.Master.Monad.{deref, read_file, for_each}
use huron_fs.Master.Monad.Laws.{run-bind, run-then, run-deref, run-read_file}
use huron_fs.Master.Numbers.{mark, release_file_no}
use huron_fs.Master.Numbers.Laws.{mark-same}
use huron_fs.Master.Nodes.{update_node, without_file}
use huron_fs.Master.Send.{keys, int, send_remove_request}
use huron_fs.Master.Send.Laws.{run-to_io_node}
use huron_fs.Master.Files.{forget_file, remove_open_file, remove_opened, remove_entry, remove_file}

-- UNLINK for a file number, to a node
abbrev pub unlink_message : ℕ → ℤ → Message
unlink_message id file_no = record {
  target = to_node id;
  body = int Code.unlink ∷ num file_no ∷ [];
}

-- The entry is gone and no other is, the open file is gone, its number is free, and the node is
-- told of it once.
pub record Removed (path : FilePath) (n primary : ℕ) (s s' : Master) : Type 0 where
  pub entry : find path s'.file_stat_pool ≡ none
  pub others : (p : FilePath) → p ≢ path → find p s'.file_stat_pool ≡ find p s.file_stat_pool
  pub closed : find (pos n) s'.buffered_files ≡ none
  pub free : s'.file_no_pool n ≡ false
  pub told : s'.output ≡ s.output ++ unlink_message primary (pos n) ∷ []

run-forget_file :
    (s : Master) (file_no : ℤ) (id : ℕ) (n : NodeInfo)
    → find id s.registered_io_nodes ≡ some n
    → forget_file file_no id s
      ≡ returns tt (record s {
        output = s.output ++ unlink_message id file_no ∷ [];
        registered_io_nodes = set id (without_file file_no n) s.registered_io_nodes;
      })
unfolding forget_file send_remove_request update_node
run-forget_file s file_no id n e =
    run-then (send_remove_request file_no id) (update_node (without_file file_no) id) tt s
      (record s { output = s.output ++ unlink_message id file_no ∷ [] })
      (run-to_io_node s id (int Code.unlink ∷ num file_no ∷ []) n e)
    ∙ rw (update_node, e) refl

abbrev told : ℕ → ℕ → NodeInfo → Master → Master
told n primary node s = record s {
  output = s.output ++ unlink_message primary (pos n) ∷ [];
  registered_io_nodes = set primary (without_file (pos n) node) s.registered_io_nodes;
}

abbrev without_open_file : ℕ → ℕ → Master → Master
without_open_file a n s = record s {
  buffered_files = erase (pos n) s.buffered_files;
  heap = erase a s.heap;
  file_number = s.file_number - 1;
  file_no_pool = mark n false s.file_no_pool;
}

run-remove_open_file :
    (s : Master) (a n primary : ℕ) (f : OpenFileInfo) (node : NodeInfo)
    → find a s.heap ≡ some f
    → f.file_no ≡ pos n
    → f.primary_replica_node ≡ some primary
    → f.io_nodes_set ≡ []
    → find primary s.registered_io_nodes ≡ some node
    → remove_open_file a s ≡ returns tt (without_open_file a n (told n primary node s))
unfolding remove_open_file release_file_no keys for_each
run-remove_open_file s a n primary f node eh en epr es ereg =
    run-bind (read_file a) _ f s s (run-read_file s a f eh)
    ∙ run-bind (deref f.primary_replica_node) _ primary s s
        (run-deref f.primary_replica_node primary s epr)
    ∙ run-then (forget_file f.file_no primary) _ tt s (told n primary node s)
        (rw en (run-forget_file s (pos n) primary node ereg))
    ∙ rw (es, en) refl

-- _remove_file of an open file without replicas whose primary is registered returns SUCCESS;
-- its entry is gone and no other entry changes, the open file is gone from the buffered files,
-- its number is free again, and its primary is told once to unlink it.
pub remove_file-Removed :
    (s : Master) (path : FilePath) (st : MasterFileStat) (a n primary : ℕ) (f : OpenFileInfo)
    (node : NodeInfo)
    → find path s.file_stat_pool ≡ some st
    → st.opened_file_info ≡ some a
    → find a s.heap ≡ some f
    → f.file_no ≡ pos n
    → f.primary_replica_node ≡ some primary
    → f.io_nodes_set ≡ []
    → find primary s.registered_io_nodes ≡ some node
    → (s' : Master) × (remove_file path s ≡ returns success s') × Removed path n primary s s'
unfolding remove_file remove_entry
remove_file-Removed s path st a n primary f node ep eo eh en epr es ereg =
    let closed : Master = without_open_file a n (told n primary node s) in
    (
      record closed { file_stat_pool = erase path s.file_stat_pool },
      ap (λ o. remove_entry path o s) ep
          ∙ ap (λ (o : Option ℕ). remove_opened path o s) eo
          ∙ run-then (remove_open_file a) _ tt s closed
              (run-remove_open_file s a n primary f node eh en epr es ereg),
      record {
        entry = find-erase_self path s.file_stat_pool;
        others = λ p ne. ground (arith, find-erase path p s.file_stat_pool, same_iff path p);
        closed = find-erase_self (pos n) s.buffered_files;
        free = mark-same n false s.file_no_pool;
        told = refl;
      },
    )
