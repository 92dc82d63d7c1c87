-- ===== src/Master/Send/Laws.antt =====
-- What sending a message to a registered node does.
use huron_fs.Prelude.{ℕ, ◌≡◌, some, List, [], ◌∷◌, ◌++◌}
use huron_fs.Prelude.Map.{ℕ_key, path_key, find}
use huron_fs.Master.{Master, NodeInfo, OpenFileInfo, MasterFileStat, to_node, Word, returns}
use huron_fs.Master.Monad.{deref, send, pure}
use huron_fs.Master.Monad.Laws.{run-bind, run-then, run-deref}
use huron_fs.Master.Send.{live, to_io_node, stat_of}

pub run-live :
    (s : Master) (id : ℕ) (n : NodeInfo)
    → find id s.registered_io_nodes ≡ some n
    → live id s ≡ returns tt s
run-live s id n e =
    run-bind (deref (find id s.registered_io_nodes)) (λ _. pure tt) n s s
      (run-deref (find id s.registered_io_nodes) n s e)

pub run-to_io_node :
    (s : Master) (id : ℕ) (body : List Word) (n : NodeInfo)
    → find id s.registered_io_nodes ≡ some n
    → to_io_node id body s
      ≡ returns tt
          (record s { output = s.output ++ record { target = to_node id; body = body } ∷ [] })
run-to_io_node s id body n e =
    run-then (live id) (send (record { target = to_node id; body = body })) tt s s
      (run-live s id n e)

pub run-stat_of :
    (s : Master) (f : OpenFileInfo) (st : MasterFileStat)
    → find f.file_status s.file_stat_pool ≡ some st
    → stat_of f s ≡ returns st s
unfolding stat_of
run-stat_of s f st e = run-deref (find f.file_status s.file_stat_pool) st s e
