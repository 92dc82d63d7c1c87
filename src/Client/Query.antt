-- ===== src/Client/Query.antt =====
-- Queries and their answers: Client::get_query_response of src/Common/src/Client.cpp,
-- CBB_client::_report_IOnode_failure, _find_scbb_by_handle and _register_to_master, and pops from
-- an answer. A pop of something else than was pushed is undefined.
pub mod Laws
use huron_fs.Prelude.{
  ℕ, zero, suc, ◌+◌, ◌%◌, Bool, true, false, Option, none, some, List, [], ◌∷◌, length, ◌==◌,
  if◌then◌else◌,
}
use huron_fs.Prelude.Int.{ℤ, pos, negsuc}
use huron_fs.Prelude.Map.{ℕ_key, ℤ_key, Map, FilePath, find, set, same}
use huron_fs.Exec.{
  Exception, runtime_error, Outcome, returns, throws, undefined, ◌>>=◌, ◌>>◌, pure, throw, fault,
  gets, modify, at, deref, catch,
}
use huron_fs.Master.{Stat, Word, num, text, attr, success, failure}
use huron_fs.Client.{Client, M, Network, Answer, Scbb}
use huron_fs.Client.Code

-- The number that an int or a size_t of the client is pushed as
abbrev pub code : ℕ → Word
code n = num (pos n)

-- -ret, as errno takes it
unfoldable pub negate : ℤ → ℤ
negate (pos zero) = pos 0
negate (pos (suc n)) = negsuc n
negate (negsuc n) = pos (suc n)

-- Whether one of the handles of a SCBB is this one
unfoldable pub holds_handle : ℕ → Map ℤ (Option ℕ) → Bool
holds_handle handle [] = false
holds_handle handle ((id, none) ∷ nodes) = holds_handle handle nodes
holds_handle handle ((id, some h) ∷ nodes) =
    let rest : Bool = holds_handle handle nodes in if handle == h then true else rest

-- CBB_client::_find_scbb_by_handle; the index of the first one found
unfoldable pub find_scbb_by_handle : ℕ → Map ℕ Scbb → Option ℕ
find_scbb_by_handle handle [] = none
find_scbb_by_handle handle ((k, scbb) ∷ masters) =
    let rest : Option ℕ = find_scbb_by_handle handle masters in
    if holds_handle handle scbb.io_node_list then some k else rest

module _ {Peer : Type 0} where
  abbrev pub set_errno : ℤ → M Peer (Unit {0})
  set_errno e = modify λ s. record s { errno = e }

  -- response->pop(ret)
  unfoldable pub pop_int : List Word → M Peer (ℤ × List Word)
  pop_int (num n ∷ words) = pure (n, words)
  pop_int words = fault

  -- pop of an off64_t or a size_t
  unfoldable pub pop_size : List Word → M Peer (ℕ × List Word)
  pop_size (num (pos n) ∷ words) = pure (n, words)
  pop_size words = fault

  unfoldable pub pop_string : List Word → M Peer (FilePath × List Word)
  pop_string (text path ∷ words) = pure (path, words)
  pop_string words = fault

  -- Recv_attr
  unfoldable pub recv_attr : List Word → M Peer (Stat × List Word)
  recv_attr (attr file_stat ∷ words) = pure (file_stat, words)
  recv_attr words = fault

  -- _get_master_handle_from_master_number
  unfoldable pub master_handle_of : ℕ → M Peer ℕ
  master_handle_of number = do
    found ← gets (λ s. find number s.master_handle_list)
    scbb ← at found
    pure scbb.master_handle

  -- The static variable of _get_master_number_from_path
  unfoldable pub master_total : M Peer ℕ
  master_total = do
    known ← gets (λ s. s.master_total)
    elim known [
      | some n ↦ pure n
      | none ↦ do
        n ← gets (λ s. length s.master_handle_list)
        modify λ s. record s { master_total = some n }
        pure n
    ]

  module _ (net : Network Peer) where
    abbrev pub send_only : ℕ → List Word → M Peer (Unit {0})
    send_only handle words = modify λ s. record s { peer = net.tell handle words s.peer }

    -- CBB_client::_report_IOnode_failure; it reports IOnode 0 to Master 0.
    unfoldable pub report_to : Option ℕ → M Peer ℤ
    report_to none = pure failure
    report_to (some k) = do
      master_handle ← master_handle_of 0
      send_only master_handle (code Code.io_node_failure ∷ code 0 ∷ [])
      pure success

    unfoldable pub report_io_node_failure : ℕ → M Peer ℤ
    report_io_node_failure handle = do
      corresponding_scbb ← gets (λ s. find_scbb_by_handle handle s.master_handle_list)
      report_to corresponding_scbb

    -- get_query_response after send_query
    unfoldable pub answered : ℕ → Option Answer → M Peer Answer
    answered handle (some a) = pure a
    answered handle none = do report_io_node_failure handle; throw runtime_error

    unfoldable pub query : ℕ → List Word → List ℕ → M Peer Answer
    query handle words bytes s =
        let (a, p) = net.ask handle words bytes s.peer in answered handle a (record s { peer = p })

    -- The same on a new connection, whose handle is the answer's. A connection that cannot be made
    -- throws; the new handle belongs to no SCBB, so nothing is reported.
    unfoldable pub connected : Option (ℕ × Answer) → M Peer (ℕ × Answer)
    connected (some a) = pure a
    connected none = throw runtime_error

    unfoldable pub query_new : FilePath → List Word → M Peer (ℕ × Answer)
    query_new uri words s =
        let (a, p) = net.connect uri words s.peer in connected a (record s { peer = p })

    -- The loop of CBB_client::_register_to_master; the handlers of its try block return -1.
    unfoldable pub register_masters : List FilePath → ℕ → ℤ → M Peer ℤ
    register_masters [] counter ret = pure ret
    register_masters (master_ip ∷ ips) counter ret = do
      found ←
          catch
            (do
              a ← query_new master_ip (code Code.new_client ∷ [])
              r ← pop_int a.1.words
              modify λ s. record s {
                master_handle_list =
                    set (length s.master_handle_list)
                      (record { io_node_list = []; id = counter; master_handle = a.0 })
                      s.master_handle_list;
              }
              pure (some r.0))
            (λ e. pure none)
      elim found [ none ↦ pure failure | some r ↦ register_masters ips (counter + 1) r ]

    unfoldable pub register_to_master : M Peer ℤ
    register_to_master = do
      ips ← gets (λ s. s.master_ip_list)
      elim ips [ none ↦ pure failure | some l ↦ register_masters l 0 success ]

    -- CBB_client::start_threads, less the threads
    unfoldable pub start_threads : M Peer (Unit {0})
    start_threads = do
      ret ← register_to_master
      if same ret failure then pure tt else modify λ s. record s { thread_started = true }

    -- CHECK_INIT
    unfoldable pub check_init : M Peer (Unit {0})
    check_init = do
      started ← gets (λ s. s.thread_started)
      if started then pure tt else start_threads

    -- _get_master_number_from_path, with file_path_hash
    unfoldable pub master_number_of : FilePath → M Peer ℕ
    master_number_of path = do n ← master_total; if n == 0 then fault else pure (net.hash path % n)

    -- _get_master_handle_from_path
    unfoldable pub master_handle_from_path : FilePath → M Peer ℕ
    master_handle_from_path path = do n ← master_number_of path; master_handle_of n
