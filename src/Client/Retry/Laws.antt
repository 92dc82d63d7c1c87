-- ===== src/Client/Retry/Laws.antt =====
-- The public operations of the client while the connection to a Master is lost.
use huron_fs.Prelude.{ℕ, zero, suc, ◌≡◌, refl, ◌∙◌, none, List, [], ◌∷◌}
use huron_fs.Prelude.Int.{pos}
use huron_fs.Prelude.Map.{FilePath}
use huron_fs.Exec.{returns, throws, runtime_error, ◌>>=◌}
use huron_fs.Exec.Laws.{run-bind, run-then, run-bind_throws, run-catch_throws}
use huron_fs.Master.{Word, text, failure}
use huron_fs.Client.{Client, M, Network}
use huron_fs.Client.Code
use huron_fs.Client.Query.{code, query, check_init, master_handle_from_path, find_scbb_by_handle}
use huron_fs.Client.Query.Laws.{
  MasterOf, run-check_init, run-master_handle_from_path, run-query_lost,
}
use huron_fs.Client.Paths.{path_query, result_of, rmdir_once, mkdir_once}
use huron_fs.Client.Retry.{retry, client_rmdir, client_mkdir}

-- A connection on which no query gets an answer
abbrev pub Lost : {Peer : Type 0} → Network Peer → ℕ → Type 0
Lost {Peer} net handle =
    (words : List Word) (bytes : List ℕ) (p : Peer)
    → (q : Peer) × (net.ask handle words bytes p ≡ (none, q))

module _ {Peer : Type 0} where
  -- Calls that throw a runtime_error whatever the servers do, and change nothing but them
  abbrev pub Throws : {A : Type 0} → M Peer A → Client Peer → Type 0
  Throws call s =
      (p : Peer)
      → (q : Peer) × (call (record s { peer = p }) ≡ throws runtime_error (record s { peer = q }))

  retry-Throws :
      {A : Type 0} (left : ℕ) (ret : A) (call : M Peer A) (s : Client Peer)
      → Throws call s
      → (p : Peer)
      → (q : Peer) × (retry left ret call (record s { peer = p })
          ≡ returns ret (record s { peer = q }))
  unfolding retry
  retry-Throws zero ret call s h p = (p, refl)
  retry-Throws (suc left) ret call s h p =
      let (q, e) = h p in
      let (r, e') = retry-Throws left ret call s h q in
      (
        r,
        run-catch_throws call _ runtime_error (record s { peer = p }) (record s { peer = q }) e
            ∙ e',
      )

  module _ (net : Network Peer) (path : FilePath) where
    path_query-Throws :
        (words : List Word) (s : Client Peer) (m : MasterOf net path s)
        → Lost net m.scbb.master_handle
        → find_scbb_by_handle m.scbb.master_handle s.master_handle_list ≡ none
        → Throws (path_query net path words) s
    unfolding path_query
    path_query-Throws words s m lost unknown p =
        let handle : ℕ = m.scbb.master_handle in
        let t : Client Peer = record s { peer = p } in
        let m' : MasterOf net path t = record {
          started = m.started;
          others = m.others;
          total = m.total;
          scbb = m.scbb;
          master = m.master;
        } in
        let (q, e) = lost words [] p in
        (
          q,
          run-then (check_init net) _ tt t t (run-check_init net t m.started)
              ∙ run-bind (master_handle_from_path net path) _ handle t t
                  (run-master_handle_from_path net path t m')
              ∙ run-bind_throws (query net handle words []) _ runtime_error t
                  (record t { peer = q }) (run-query_lost net handle words [] t q e unknown),
        )

    checked-Throws :
        (words : List Word) (s : Client Peer)
        → Throws (path_query net path words) s
        → Throws (path_query net path words >>= λ ret. result_of ret) s
    checked-Throws words s h p =
        let (q, e) = h p in
        (
          q,
          run-bind_throws (path_query net path words) (λ ret. result_of ret) runtime_error
              (record s { peer = p }) (record s { peer = q }) e,
        )

-- In a registered client that has lost the connection to the Master of a path, whose handle is no
-- IOnode's, mkdir tries in vain and returns FAILURE; rmdir tries in vain and returns 0, as it does
-- for a directory that it has removed. Both change nothing but the servers.
pub client_rmdir-Lost :
    {Peer : Type 0} (net : Network Peer) (path : FilePath) (mode : ℕ) (s : Client Peer)
    (m : MasterOf net path s)
    → Lost net m.scbb.master_handle
    → find_scbb_by_handle m.scbb.master_handle s.master_handle_list ≡ none
    → (p : Peer) × (q : Peer) × (client_mkdir net path mode s
        ≡ returns failure (record s { peer = p }))
      × (client_rmdir net path s ≡ returns (pos 0) (record s { peer = q }))
unfolding client_mkdir client_rmdir mkdir_once rmdir_once
client_rmdir-Lost net path mode s m lost unknown =
    let mkdir_words : List Word = code Code.mkdir ∷ text path ∷ code mode ∷ [] in
    let rmdir_words : List Word = code Code.rm_dir ∷ text path ∷ [] in
    let (p, e) =
      retry-Throws Code.cbb_comm_retry failure
        (path_query net path mkdir_words >>= λ ret. result_of ret) s
        (checked-Throws net path mkdir_words s
          (path_query-Throws net path mkdir_words s m lost unknown))
        s.peer in
    let (q, e') =
      retry-Throws Code.cbb_comm_retry (pos 0)
        (path_query net path rmdir_words >>= λ ret. result_of ret) s
        (checked-Throws net path rmdir_words s
          (path_query-Throws net path rmdir_words s m lost unknown))
        s.peer in
    (p, q, e, e')
