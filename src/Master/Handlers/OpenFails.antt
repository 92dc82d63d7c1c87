-- ===== src/Master/Handlers/OpenFails.antt =====
-- _parse_open_file of a path that has no entry, when the file cannot be opened.
use Prim.Native.Nat.{bit_or}
use huron_fs.Master.Handlers.Open.{
  new_entry, mode_of, before_place, run-open_file, run-enter, insert-find,
}
use huron_fs.Prelude.{
  ◌-◌, ℕ, ◌≡◌, refl, ap, ◌∙◌, true, false, none, some, [], ◌∷◌, ◌++◌, ◌==◌, length,
}
use huron_fs.Prelude.Int.{ℤ, pos, negsuc}
use huron_fs.Prelude.Map.{ℕ_key, ℤ_key, path_key, FilePath, find, find-set_self}
use huron_fs.Block.{min_of}
use huron_fs.Master.{
  Word, bad_alloc, Master, Message, to_client, runtime_error, returns, throws, failure,
}
use huron_fs.Master.Monad.{catch}
use huron_fs.Master.Monad.Laws.{run-bind, run-catch_throws, run-bind_throws, run-then_throws}
use huron_fs.Master.Numbers.{
  max_file_number, mark, scan_twice, get_file_no, get_file_no_below, release_file_no,
}
use huron_fs.Master.Numbers.Laws.{numbered, mark-same}
use huron_fs.Master.Nodes.{select_io_node}
use huron_fs.Master.Files.{
  num_of_replica, regular, not_exist, created, create_new_open_file_info, enter_file, place_file,
  open_new, open_found, open_file, give_back,
}
use huron_fs.Master.Files.Open.{with_entry, unplaced}
use huron_fs.Master.Handlers.{
  too_many_files, cleared, unknown_error, open_here, open_failed, open_entry, parse_open_file,
}

-- The answer of an open that fails
abbrev pub failed_answer : ℕ → Word → Message
failed_answer client code = record { target = to_client client; body = code ∷ [] }

-- Opening a path that has no entry while every file number is in use answers TOO_MANY_FILES and
-- changes nothing else.
pub parse_open_file-Full :
    (s : Master) (client : ℕ) (path : FilePath) (flag mode : ℕ)
    → find path s.file_stat_pool ≡ none
    → (s.file_number == max_file_number) ≡ true
    → parse_open_file client path flag mode s
      ≡ returns failure (record s { output = s.output ++ failed_answer client too_many_files ∷ [] })
unfolding parse_open_file open_entry open_here open_failed open_file open_found open_new get_file_no
    get_file_no_below
parse_open_file-Full s client path flag mode absent full =
    let flag' : ℕ = cleared flag in
    let mode' : ℕ = mode_of flag mode in
    let no_number : get_file_no_below max_file_number s ≡ returns (negsuc 0) s =
      rw (get_file_no_below, full) refl in
    ap (λ o. open_entry client path flag' mode' o s) absent
    ∙ run-catch_throws (open_here client path flag' mode') (open_failed client) bad_alloc s s (
        run-bind_throws (open_file path flag' mode') _ bad_alloc s s (
          ap (λ o. open_found path flag' mode' o s) absent
          ∙ run-bind (get_file_no_below max_file_number) _ (negsuc 0) s s no_number))

-- What is left behind when no node takes a new file: its number is free, and its entry and its
-- open file are there.
pub record Stranded (client n flag mode : ℕ) (path : FilePath) (s s' : Master) : Type 0 where
  pub entry : find path s'.file_stat_pool ≡ some (new_entry path mode s)
  pub number : find (pos n) s'.buffered_files ≡ some s.next_address
  pub object : find s.next_address s'.heap ≡ some (unplaced n flag path)
  pub free : s'.file_no_pool n ≡ false
  pub told : s'.output ≡ s.output ++ failed_answer client unknown_error ∷ []

-- Without an IOnode there is no node to take.
place_file-no_node :
    (s : Master) (a : ℕ) (file_no : ℤ)
    → s.registered_io_nodes ≡ []
    → place_file a file_no s ≡ throws runtime_error s
unfolding place_file select_io_node
place_file-no_node s a file_no e =
    run-bind_throws (select_io_node file_no (min_of num_of_replica (length s.registered_io_nodes)))
      _ runtime_error s s (rw e refl)

-- Opening a path that has no entry, while no IOnode is registered and the search finds a
-- number that is free and that no buffered file has, answers UNKNOWN_ERROR and gives the
-- number back; the entry of the path and the open file under the number stay.
pub parse_open_file-Stranded :
    (s : Master) (client : ℕ) (path : FilePath) (n flag mode : ℕ)
    → find path s.file_stat_pool ≡ none
    → find (pos n) s.buffered_files ≡ none
    → (s.file_number == max_file_number) ≡ false
    → scan_twice max_file_number s.current_file_no s.file_no_pool ≡ some n
    → s.registered_io_nodes ≡ []
    → (s' : Master) × (parse_open_file client path flag mode s ≡ returns failure s')
      × Stranded client n (cleared flag) (mode_of flag mode) path s s'
unfolding parse_open_file open_entry open_here open_failed create_new_open_file_info give_back
    release_file_no created
parse_open_file-Stranded s client path n flag mode absent unused room found e =
    let flag' : ℕ = cleared flag in
    let mode' : ℕ = mode_of flag mode in
    let a : ℕ = s.next_address in
    let (ts, run) = run-open_file s path n flag' mode' absent room found in
    let w : Master = with_entry path not_exist (bit_or regular mode') ts (numbered n s) in
    let b : Master = before_place path n flag' mode' s ts in
    let q : Master = record b {
      file_number = b.file_number - 1;
      file_no_pool = mark n false b.file_no_pool;
    } in
    let create : create_new_open_file_info (pos n) flag' path w ≡ throws runtime_error q =
      run-bind (enter_file (pos n) flag' path) _ a w b
        (run-enter s path n flag' mode' absent room found ts)
      ∙ run-then_throws (catch (place_file a (pos n)) (give_back (pos n))) _ runtime_error b q (
          run-catch_throws (place_file a (pos n)) (give_back (pos n)) runtime_error b b
            (place_file-no_node b a (pos n) e)) in
    (
      record q { output = q.output ++ failed_answer client unknown_error ∷ [] },
      ap (λ o. open_entry client path flag' mode' o s) absent
          ∙ run-catch_throws (open_here client path flag' mode') (open_failed client) runtime_error
              s q
              (run-bind_throws (open_file path flag' mode') _ runtime_error s q (
                run
                ∙ run-bind_throws (create_new_open_file_info (pos n) flag' path) _ runtime_error w q
                    create)),
      record {
        entry = find-set_self path (new_entry path mode' s) _;
        number = insert-find n a s.buffered_files unused;
        object = find-set_self a (unplaced n flag' path) s.heap;
        free = mark-same n false (numbered n s).file_no_pool;
        told = refl;
      },
    )
