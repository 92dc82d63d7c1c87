-- ===== src/Master/Entries/Rename.antt =====
-- _parse_rename of a file that is not open, on one Master.
use huron_fs.Prelude.{ℕ, ◌≡◌, ◌≢◌, refl, ap, ◌∙◌, none, some, [], ◌∷◌, ◌++◌, arith}
use huron_fs.Prelude.Map.{
  ℤ_key, path_key, Map, FilePath, find, set, insert, erase, same_iff, find-set, find-set_self,
  find-erase, find-erase_self,
}
use huron_fs.Master.{
  Master, MasterFileStat, Message, to_client, returns, undefined, success, failure, myself,
}
use huron_fs.Master.Monad.{deref}
use huron_fs.Master.Monad.Laws.{
  run-bind, run-then, run-deref, run-bind_undefined, run-then_undefined,
}
use huron_fs.Master.Send.{int}
use huron_fs.Master.Files.{
  modify_stat, remove_opened, remove_entry, remove_file, rename_opened, rename_local_file,
}
use huron_fs.Master.Files.Open.{run-modify_stat, find-insert}
use huron_fs.Master.Entries.{rename_here, rename_found, parse_rename}

abbrev pub renamed_answer : ℕ → Message
renamed_answer client = record { target = to_client client; body = int 0 ∷ [] }

-- The entry has moved to the new path, and no other entry has changed.
pub record Moved (client : ℕ) (old_path new_path : FilePath) (st : MasterFileStat) (s s' : Master)
    : Type 0 where
  pub source : find old_path s'.file_stat_pool ≡ none
  pub target : find new_path s'.file_stat_pool ≡ some (record st { full_path = new_path })
  pub others :
      (p : FilePath)
      → p ≢ old_path
      → p ≢ new_path
      → find p s'.file_stat_pool ≡ find p s.file_stat_pool
  pub told : s'.output ≡ s.output ++ renamed_answer client ∷ []

abbrev copied : FilePath → MasterFileStat → Master → Master
copied path st s = record s {
  file_stat_pool = set path (record st { full_path = path }) (insert path st s.file_stat_pool);
}

run-rename_local_file :
    (s : Master) (path : FilePath) (st : MasterFileStat)
    → find path s.file_stat_pool ≡ none
    → st.opened_file_info ≡ none
    → rename_local_file st path s ≡ returns tt (copied path st s)
unfolding rename_local_file rename_opened
run-rename_local_file s path st e o =
    let s₁ : Master = record s { file_stat_pool = insert path st s.file_stat_pool } in
    let new : MasterFileStat = record st { full_path = path } in
    let c : Master = copied path st s in
    run-then (modify_stat path λ st. record st { full_path = path }) _ tt s₁ c (
      run-modify_stat s₁ path (λ st. record st { full_path = path }) st
        (find-insert path st s.file_stat_pool e))
    ∙ run-bind (deref (find path c.file_stat_pool)) _ new c c (
        run-deref (find path c.file_stat_pool) new c
          (find-set_self path new (insert path st s.file_stat_pool)))
    ∙ ap (λ o. rename_opened path o c) o

target_kept :
    (a b : FilePath) (v w : MasterFileStat) (m : Map FilePath MasterFileStat)
    → a ≢ b
    → find b (erase a (set b v (insert b w m))) ≡ some v
target_kept a b v w m ne =
    ground (
      arith,
      find-erase a b (set b v (insert b w m)),
      find-set_self b v (insert b w m),
      same_iff a b,
    )

others_kept :
    (a b p : FilePath) (v w : MasterFileStat) (m : Map FilePath MasterFileStat)
    → find b m ≡ none
    → p ≢ a
    → p ≢ b
    → find p (erase a (set b v (insert b w m))) ≡ find p m
unfolding insert
others_kept a b p v w m e na nb =
    rw (insert, e)
      (ground (
        arith,
        find-erase a p (set b v (set b w m)),
        find-set b p v (set b w m),
        find-set b p w m,
        same_iff a p,
        same_iff b p,
      ))

-- Renaming an entry that is not open to another path, which has no entry, answers SUCCESS and
-- moves it; no other entry changes.
pub parse_rename-Moved :
    (s : Master) (client : ℕ) (old_path new_path : FilePath) (st : MasterFileStat)
    → old_path ≢ new_path
    → find old_path s.file_stat_pool ≡ some st
    → find new_path s.file_stat_pool ≡ none
    → st.opened_file_info ≡ none
    → (s' : Master) × (parse_rename client old_path new_path myself s ≡ returns success s')
      × Moved client old_path new_path st s s'
unfolding parse_rename rename_here rename_found remove_file remove_entry
parse_rename-Moved s client old_path new_path st ne eo en o =
    let c : Master = copied new_path st s in
    let moved : Master = record c { file_stat_pool = erase old_path c.file_stat_pool } in
    let found : rename_found old_path new_path (some st) s ≡ returns tt moved =
      run-bind (deref (find old_path s.file_stat_pool)) _ st s s
        (run-deref (find old_path s.file_stat_pool) st s eo)
      ∙ run-then (rename_local_file st new_path) _ tt s c
          (run-rename_local_file s new_path st en o) in
    (
      record moved { output = s.output ++ renamed_answer client ∷ [] },
      run-then (rename_here old_path new_path (find old_path s.file_stat_pool)) _ tt s moved (
          run-bind (remove_file new_path) _ failure s s (ap (λ o. remove_entry new_path o s) en)
          ∙ ap (λ o. rename_found old_path new_path o s) eo
          ∙ found),
      record {
        source = find-erase_self old_path c.file_stat_pool;
        target = target_kept old_path new_path _ st s.file_stat_pool ne;
        others = λ p. others_kept old_path new_path p _ st s.file_stat_pool en;
        told = refl;
      },
    )

-- Renaming an entry that is not open to its own path removes it and then reads it.
pub parse_rename-same :
    (s : Master) (client : ℕ) (path : FilePath) (st : MasterFileStat)
    → find path s.file_stat_pool ≡ some st
    → st.opened_file_info ≡ none
    → parse_rename client path path myself s ≡ undefined
unfolding parse_rename rename_here rename_found remove_file remove_entry
parse_rename-same s client path st e o =
    let t : Master = record s { file_stat_pool = erase path s.file_stat_pool } in
    let removed : remove_file path s ≡ returns success t =
      ap (λ o. remove_entry path o s) e ∙ ap (λ o. remove_opened path o s) o in
    let gone : rename_found path path (some st) t ≡ undefined =
      run-bind_undefined (deref (find path t.file_stat_pool)) _ t
        (ap (λ o. deref o t) (find-erase_self path s.file_stat_pool)) in
    run-then_undefined (rename_here path path (find path s.file_stat_pool)) _ s (
      run-bind (remove_file path) _ success s t removed
      ∙ ap (λ o. rename_found path path o t) e
      ∙ gone)
