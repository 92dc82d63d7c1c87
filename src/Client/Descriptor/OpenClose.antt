-- ===== src/Client/Descriptor/OpenClose.antt =====
-- CBB_client::_open and _close one after the other.
use huron_fs.Prelude.{
  ℕ, suc, ◌≤◌, ◌≡◌, refl, ap, ◌∙◌, sym, Bool-cases, inl, inr, Bool, true, false, none, some, List,
  [], ◌∷◌, ◌==◌, arith,
}
use huron_fs.Prelude.Int.{pos}
use huron_fs.Prelude.Map.{
  Key, ℕ_key, path_key, FilePath, Map, find, insert, erase, insert_new, find-set_self, erase-set,
  erase-none,
}
use huron_fs.Exec.{returns}
use huron_fs.Master.{Word, num}
use huron_fs.Master.Numbers.{scan_twice, mark}
use huron_fs.Master.Numbers.Laws.{scan_twice-some}
use huron_fs.Client.{Client, Network}
use huron_fs.Client.Code
use huron_fs.Client.Query.{code}
use huron_fs.Client.Query.Laws.{MasterOf, number_of}
use huron_fs.Client.Table.{fid_to_fd, open_words, open_once}
use huron_fs.Client.Table.Run.{Remote, remote_words, meta_of, descriptor_of, opened_client}
use huron_fs.Client.Table.Open.{open_once-Opened}
use huron_fs.Client.Descriptor.{close_once}
use huron_fs.Client.Descriptor.Close.{LastOpen, closed_client, close_once-Closed}

erase-insert :
    {K V : Type 0} ⦃k : Key K⦄ (a : K) (v : V) (m : Map K V)
    → find a m ≡ none
    → erase a (insert a v m) ≡ m
erase-insert a v m h = ap (erase a) (insert_new a v m h) ∙ erase-set a v m ∙ erase-none a m h

find-insert_new :
    {K V : Type 0} ⦃k : Key K⦄ (a : K) (v : V) (m : Map K V)
    → find a m ≡ none
    → find a (insert a v m) ≡ some v
find-insert_new a v m h = ap (find a) (insert_new a v m h) ∙ find-set_self a v m

mark_back_at :
    (n : ℕ) (pool : ℕ → Bool)
    → pool n ≡ false
    → (k : ℕ) → mark n false (mark n true pool) k ≡ pool k
unfolding mark
mark_back_at n pool h k = elim (Bool-cases (k == n)) [
  | inl e ↦ rw e (sym (ap pool (ground (arith, e)) ∙ h))
  | inr e ↦ rw e refl
]

mark_back : (n : ℕ) (pool : ℕ → Bool) → pool n ≡ false → mark n false (mark n true pool) ≡ pool
mark_back n pool h = λ i k. mark_back_at n pool h k i

-- _open of a path that is not open in a registered client, and a _close of the descriptor that it
-- gives, both accepted by the Master. The search, which starts no higher than MAX_FILE, finds a
-- number, and neither the list of open files nor the heap has an entry for that number and for the
-- next address. Both succeed, and afterwards no descriptor, no path and no file_meta is left over:
-- only the number to search from, the next address, errno and the servers have changed.
pub close_once-open_once :
    {Peer : Type 0} (net : Network Peer) (path : FilePath) (flag mode n : ℕ) (s : Client Peer)
    (m : MasterOf net path s) (r : Remote) (rest rest' : List Word) (bytes bytes' : List ℕ)
    (p q : Peer)
    → scan_twice Code.max_file s.fid_now s.opened_file ≡ some n
    → s.fid_now ≤ Code.max_file
    → find n s.file_list ≡ none
    → find s.next_address s.heap ≡ none
    → find path s.path_file_meta_map ≡ none
    → net.ask m.scbb.master_handle (open_words path flag mode) [] s.peer
      ≡ (some (record { words = remote_words r rest; bytes = bytes }), p)
    → net.ask m.scbb.master_handle (code Code.close_file ∷ num r.file_no ∷ []) [] p
      ≡ (some (record { words = code 0 ∷ rest'; bytes = bytes' }), q)
    → (t : Client Peer) × (open_once net path flag mode s ≡ returns (some (fid_to_fd n)) t)
      × (close_once net (fid_to_fd n) t
          ≡ returns (pos 0) (record s {
            fid_now = n;
            next_address = suc s.next_address;
            errno = pos 0;
            peer = q;
          }))
close_once-open_once net path flag mode n s m r rest rest' bytes bytes' p q free bound new_fid
      new_address new_path e_open e_close =
    let number : ℕ = number_of net path s m in
    let a : ℕ = s.next_address in
    let t : Client _ = opened_client s r flag number path n p in
    let file = descriptor_of r flag number path n a in
    let o : LastOpen n t = record {
      file = file;
      meta = meta_of r number path n;
      scbb = m.scbb;
      path = path;
      found = find-insert_new n file s.file_list new_fid;
      here = find-set_self a (meta_of r number path n) s.heap;
      master = m.master;
      last = refl;
      named = refl;
    } in
    (
      t,
      open_once-Opened net path flag mode n s m r rest bytes p free new_path e_open,
      close_once-Closed net n t o rest' bytes' q m.started e_close
          ∙ ap (λ l. returns (pos 0) (record (closed_client n a path q t) { file_list = l }))
              (erase-insert n file s.file_list new_fid)
          ∙ ap
              (λ l. returns (pos 0) (record (closed_client n a path q t) {
                file_list = s.file_list;
                path_file_meta_map = l;
              }))
              (erase-insert path a s.path_file_meta_map new_path)
          ∙ ap
              (λ l. returns (pos 0) (record (closed_client n a path q t) {
                file_list = s.file_list;
                path_file_meta_map = s.path_file_meta_map;
                heap = l;
              }))
              (erase-set a (meta_of r number path n) s.heap ∙ erase-none a s.heap new_address)
          ∙ ap
              (λ l. returns (pos 0) (record s {
                fid_now = n;
                next_address = suc a;
                errno = pos 0;
                peer = q;
                opened_file = l;
              }))
              (mark_back n s.opened_file
                (scan_twice-some Code.max_file s.fid_now n s.opened_file bound free).1),
    )
