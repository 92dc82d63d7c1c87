-- ===== src/Master/Handlers/Open.antt =====
-- _parse_open_file of a path that has no entry.
use Prim.Native.Nat.{bit_or}
use huron_fs.Prelude.{
  ℕ, ◌≡◌, ◌≢◌, refl, ap, ◌∙◌, true, false, none, some, List, [], ◌∷◌, ◌++◌, arith, ◌==◌,
  if◌then◌else◌, append_assoc,
}
use huron_fs.Prelude.Int.{ℤ, pos}
use huron_fs.Prelude.Map.{
  ℕ_key, ℤ_key, path_key, Map, FilePath, find, set, insert, same_iff, find-set, find-set_self,
}
use huron_fs.Block.{block_bytes}
use huron_fs.Master.{
  Master, MasterFileStat, NodeInfo, Message, Task, to_client, num, attr, returns, success,
}
use huron_fs.Master.Monad.{◌>>=◌, pure, read_file, catch}
use huron_fs.Master.Monad.Laws.{run-bind, run-then, run-at, run-read_file, run-catch_returns}
use huron_fs.Master.Numbers.{max_file_number, scan_twice, get_file_no, get_file_no_below}
use huron_fs.Master.Numbers.Laws.{numbered, run-get_file_no, mark-same}
use huron_fs.Master.Nodes.{wrap, with_file}
use huron_fs.Master.Send.{int, stat_of}
use huron_fs.Master.Send.Laws.{run-stat_of}
use huron_fs.Master.Files.{
  regular, not_exist, default_stat, created, create_new_file_stat, create_new_open_file_info,
  new_open_file_info, enter_file, place_file, open_new, open_found, open_file, give_back,
}
use huron_fs.Master.Files.Open.{
  with_entry, run-create_new_file_stat, unplaced, entered, run-enter_file,
}
use huron_fs.Master.Files.Place.{placed, open_request, after_place, run-place_file}
use huron_fs.Master.Handlers.{
  creates, cleared, file_at, open_here, open_failed, open_entry, parse_open_file,
}

-- The entry of the new file.
abbrev pub new_entry : FilePath → ℕ → Master → MasterFileStat
new_entry path mode s = record (created path not_exist (bit_or regular mode) s default_stat) {
  opened_file_info = some s.next_address;
}

-- SUCCESS, the file number, the block size and the status
abbrev pub open_answer : ℕ → ℕ → MasterFileStat → Message
open_answer client n st = record {
  target = to_client client;
  body = int 0 ∷ num (pos n) ∷ int block_bytes ∷ attr st.status ∷ [];
}

-- What has changed once a new file is open under the number `n` on the node `id`.
pub record Opened (client n id flag mode : ℕ) (path : FilePath) (node : NodeInfo) (s s' : Master)
    : Type 0 where
  pub entry : find path s'.file_stat_pool ≡ some (new_entry path mode s)
  pub others : (p : FilePath) → p ≢ path → find p s'.file_stat_pool ≡ find p s.file_stat_pool
  pub number : find (pos n) s'.buffered_files ≡ some s.next_address
  pub object : find s.next_address s'.heap ≡ some (placed n id flag path)
  pub taken : s'.file_no_pool n ≡ true
  pub stored : find id s'.registered_io_nodes ≡ some (with_file (pos n) node)
  pub sent :
      s'.output
      ≡ s.output
        ++ open_request n id flag not_exist path ∷ open_answer client n (new_entry path mode s) ∷ []

-- The state before a node is chosen.
abbrev pub before_place : FilePath → ℕ → ℕ → ℕ → Master → List Task → Master
before_place path n flag mode s ts =
    entered n flag path (created path not_exist (bit_or regular mode) s default_stat)
      (with_entry path not_exist (bit_or regular mode) ts (numbered n s))

module _ (s : Master) (path : FilePath) (n flag mode : ℕ)
    (absent : find path s.file_stat_pool ≡ none) (room : (s.file_number == max_file_number) ≡ false)
    (found : scan_twice max_file_number s.current_file_no s.file_no_pool ≡ some n) where
  -- Up to the choice of a node.
  pub run-open_file :
      (ts : List Task) × (open_file path flag mode s
        ≡ (create_new_open_file_info (pos n) flag path >>= λ _. pure (pos n))
            (with_entry path not_exist (bit_or regular mode) ts (numbered n s)))
  unfolding open_file open_found open_new get_file_no
  run-open_file =
      let (ts, run) =
        run-create_new_file_stat (numbered n s) path not_exist (bit_or regular mode) absent in
      (
        ts,
        ap (λ o. open_found path flag mode o s) absent
            ∙ run-bind (get_file_no_below max_file_number) _ (pos n) s (numbered n s)
                (run-get_file_no max_file_number n s room found)
            ∙ run-then (create_new_file_stat path not_exist (bit_or regular mode)) _ tt
                (numbered n s) (with_entry path not_exist (bit_or regular mode) ts (numbered n s))
                run,
      )

  pub run-enter :
      (ts : List Task)
      → enter_file
          (pos n)
          flag
          path
          (with_entry path not_exist (bit_or regular mode) ts (numbered n s))
        ≡ returns s.next_address (before_place path n flag mode s ts)
  unfolding created
  run-enter ts =
      run-enter_file (with_entry path not_exist (bit_or regular mode) ts (numbered n s)) n flag path
        (created path not_exist (bit_or regular mode) s default_stat)
        (find-set_self path (created path not_exist (bit_or regular mode) s default_stat)
          (insert path default_stat s.file_stat_pool))

  -- A node takes the file.
  run-open_file_placed :
      (id : ℕ) (node : NodeInfo)
      → wrap s.current_io_node s.registered_io_nodes ≡ some id
      → find id s.registered_io_nodes ≡ some node
      → (ts : List Task) × (open_file path flag mode s
          ≡ returns (pos n) (
              after_place s.next_address n id flag path
                (new_entry path mode s)
                node
                (before_place path n flag mode s ts)))
  unfolding create_new_open_file_info created
  run-open_file_placed id node w e =
      let (ts, run) = run-open_file in
      let b : Master = before_place path n flag mode s ts in
      let q : Master = after_place s.next_address n id flag path (new_entry path mode s) node b in
      (
        ts,
        run
            ∙ run-bind (create_new_open_file_info (pos n) flag path) _ s.next_address
                (with_entry path not_exist (bit_or regular mode) ts (numbered n s)) q
                (run-bind (enter_file (pos n) flag path) _ s.next_address
                    (with_entry path not_exist (bit_or regular mode) ts (numbered n s)) b
                    (run-enter ts)
                  ∙ run-then (catch (place_file s.next_address (pos n)) (give_back (pos n))) _ tt b
                      q
                      (run-catch_returns (place_file s.next_address (pos n)) (give_back (pos n)) tt
                        b q
                        (run-place_file b s.next_address n id flag path (new_entry path mode s) node
                          (find-set_self s.next_address (unplaced n flag path) s.heap)
                          (find-set_self path (new_entry path mode s) _) refl w e))),
      )

-- The mode that a file is opened with
abbrev pub mode_of : ℕ → ℕ → ℕ
mode_of flag mode = if creates flag then mode else bit_or regular 0o660

others_kept :
    (path p : FilePath) (a b c : MasterFileStat) (m : Map FilePath MasterFileStat)
    → find path m ≡ none
    → p ≢ path
    → find p (set path a (set path b (insert path c m))) ≡ find p m
unfolding insert
others_kept path p a b c m e ne =
    rw (insert, e)
      (ground (
        arith,
        find-set path p a (set path b (set path c m)),
        find-set path p b (set path c m),
        find-set path p c m,
        same_iff path p,
      ))

pub insert-find :
    (n a : ℕ) (m : Map ℤ ℕ) → find (pos n) m ≡ none → find (pos n) (insert (pos n) a m) ≡ some a
unfolding insert
insert-find n a m e = rw (insert, e) (find-set_self (pos n) a m)

-- Opening a path that has no entry, while an IOnode is registered and the search finds a
-- number that is free and that no buffered file has, answers SUCCESS with that number. The new
-- file has one empty block and is placed on the node at the iterator, which is sent the file
-- before the client is answered; no other entry changes.
pub parse_open_file-Opened :
    (s : Master) (client : ℕ) (path : FilePath) (n id flag mode : ℕ) (node : NodeInfo)
    → find path s.file_stat_pool ≡ none
    → find (pos n) s.buffered_files ≡ none
    → (s.file_number == max_file_number) ≡ false
    → scan_twice max_file_number s.current_file_no s.file_no_pool ≡ some n
    → wrap s.current_io_node s.registered_io_nodes ≡ some id
    → find id s.registered_io_nodes ≡ some node
    → (s' : Master) × (parse_open_file client path flag mode s ≡ returns success s')
      × Opened client n id (cleared flag) (mode_of flag mode) path node s s'
unfolding parse_open_file open_entry open_here created new_open_file_info
parse_open_file-Opened s client path n id flag mode node absent unused room found w e =
    let flag' : ℕ = cleared flag in
    let mode' : ℕ = mode_of flag mode in
    let a : ℕ = s.next_address in
    let st : MasterFileStat = new_entry path mode' s in
    let (ts, run) = run-open_file_placed s path n flag' mode' absent room found id node w e in
    let b : Master = before_place path n flag' mode' s ts in
    let q : Master = after_place a n id flag' path st node b in
    let s' : Master = record q { output = q.output ++ open_answer client n st ∷ [] } in
    let in_pool : find path q.file_stat_pool ≡ some st = find-set_self path st _ in
    let in_heap : find a q.heap ≡ some (placed n id flag' path) =
      find-set_self a (placed n id flag' path) b.heap in
    let buffered : find (pos n) q.buffered_files ≡ some a =
      insert-find n a s.buffered_files unused in
    (
      s',
      ap (λ o. open_entry client path flag' mode' o s) absent
          ∙ run-catch_returns (open_here client path flag' mode') (open_failed client) success s s'
              (run-bind (open_file path flag' mode') _ (pos n) s q run
                ∙ run-bind (file_at (pos n)) _ a q q
                    (run-at (find (pos n) q.buffered_files) a q buffered)
                ∙ run-bind (read_file a) _ (placed n id flag' path) q q
                    (run-read_file q a (placed n id flag' path) in_heap)
                ∙ run-bind (stat_of (placed n id flag' path)) _ st q q
                    (run-stat_of q (placed n id flag' path) st in_pool)),
      record {
        entry = in_pool;
        others = λ p ne. others_kept path p _ _ _ s.file_stat_pool absent ne;
        number = buffered;
        object = in_heap;
        taken = mark-same n true s.file_no_pool;
        stored = find-set_self id (with_file (pos n) node) s.registered_io_nodes;
        sent =
            append_assoc s.output (open_request n id flag' not_exist path ∷ [])
              (open_answer client n st ∷ []);
      },
    )
