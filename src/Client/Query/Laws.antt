-- ===== src/Client/Query/Laws.antt =====
-- How a query of a registered client runs, up to its answer.
use huron_fs.Prelude.{ℕ, suc, ◌%◌, ◌≡◌, refl, ap, ◌∙◌, true, none, some, List, ◌==◌, arith}
use huron_fs.Prelude.Map.{ℕ_key, FilePath, find}
use huron_fs.Exec.{returns, throws, runtime_error, throw, at}
use huron_fs.Exec.Laws.{run-bind, run-then, run-at, run-if_false}
use huron_fs.Master.{Word, failure}
use huron_fs.Client.{Client, Network, Answer, Scbb}
use huron_fs.Client.Query.{
  query, answered, check_init, master_total, master_number_of, master_handle_of,
  master_handle_from_path, find_scbb_by_handle, report_to, report_io_node_failure,
}

-- A client that is registered, and the Master that the hash of a path chooses
pub record MasterOf {Peer : Type 0} (net : Network Peer) (path : FilePath) (s : Client Peer)
    : Type 0 where
  pub started : s.thread_started ≡ true
  pub others : ℕ
  pub total : s.master_total ≡ some (suc others)
  pub scbb : Scbb
  pub master : find (net.hash path % suc others) s.master_handle_list ≡ some scbb

module _ {Peer : Type 0} (net : Network Peer) where
  pub run-check_init : (s : Client Peer) → s.thread_started ≡ true → check_init net s ≡ returns tt s
  unfolding check_init
  run-check_init s h = rw h refl

  -- The number of the Master, and its handle
  abbrev pub number_of : (path : FilePath) (s : Client Peer) → MasterOf net path s → ℕ
  number_of path s m = net.hash path % suc m.others

  run-master_total :
      (s : Client Peer) (n : ℕ) → s.master_total ≡ some n → master_total s ≡ returns n s
  unfolding master_total
  run-master_total s n h = rw h refl

  pub run-master_number_of :
      (path : FilePath) (s : Client Peer) (m : MasterOf net path s)
      → master_number_of net path s ≡ returns (number_of path s m) s
  unfolding master_number_of
  run-master_number_of path s m =
      run-bind master_total _ (suc m.others) s s (run-master_total s (suc m.others) m.total)
      ∙ run-if_false (suc m.others == 0) _ _ s (ground arith)

  pub run-master_handle_of :
      (n : ℕ) (scbb : Scbb) (s : Client Peer)
      → find n s.master_handle_list ≡ some scbb
      → master_handle_of n s ≡ returns scbb.master_handle s
  unfolding master_handle_of
  run-master_handle_of n scbb s h =
      run-bind (at (find n s.master_handle_list)) _ scbb s s
        (run-at (find n s.master_handle_list) scbb s h)

  pub run-master_handle_from_path :
      (path : FilePath) (s : Client Peer) (m : MasterOf net path s)
      → master_handle_from_path net path s ≡ returns m.scbb.master_handle s
  unfolding master_handle_from_path
  run-master_handle_from_path path s m =
      run-bind (master_number_of net path) _ (number_of path s m) s s
        (run-master_number_of path s m)
      ∙ run-master_handle_of (number_of path s m) m.scbb s m.master

  pub run-query :
      (handle : ℕ) (words : List Word) (bytes : List ℕ) (s : Client Peer) (a : Answer) (p : Peer)
      → net.ask handle words bytes s.peer ≡ (some a, p)
      → query net handle words bytes s ≡ returns a (record s { peer = p })
  unfolding query answered
  run-query handle words bytes s a p e = rw e refl

  run-report :
      (handle : ℕ) (s : Client Peer)
      → find_scbb_by_handle handle s.master_handle_list ≡ none
      → report_io_node_failure net handle s ≡ returns failure s
  unfolding report_io_node_failure report_to
  run-report handle s unknown = ap (λ o. report_to net o s) unknown

  -- A query whose connection is lost throws; nothing is reported of a handle that is no IOnode's.
  pub run-query_lost :
      (handle : ℕ) (words : List Word) (bytes : List ℕ) (s : Client Peer) (p : Peer)
      → net.ask handle words bytes s.peer ≡ (none, p)
      → find_scbb_by_handle handle s.master_handle_list ≡ none
      → query net handle words bytes s ≡ throws runtime_error (record s { peer = p })
  unfolding query answered
  run-query_lost handle words bytes s p e unknown =
      ap (λ a. answered net handle a.0 (record s { peer = a.1 })) e
      ∙ run-then (report_io_node_failure net handle) (throw runtime_error) failure
          (record s { peer = p }) (record s { peer = p })
          (run-report handle (record s { peer = p }) unknown)
