-- ===== src/Client/Transfer/Queries.antt =====
-- The queries that a write sends to an IOnode.
use huron_fs.Prelude.{
  ℕ, zero, suc, ◌+◌, ◌-◌, ◌/◌, ◌≤◌, ◌<◌, ◌≡◌, refl, sym, ap, ◌∙◌, some, List, [], ◌∷◌, length, min,
  take_all, take, drop, arith,
}
use huron_fs.Prelude.Int.{ℤ, pos}
use huron_fs.Block.{block_bytes}
use huron_fs.Master.{Word, num}
use huron_fs.Client.{Network}
use huron_fs.Client.Code
use huron_fs.Client.Query.{code}
use huron_fs.Client.Transfer.{transfer_size}

-- A WRITE_FILE query: its words and its bytes
abbrev pub Sent : Type 0
Sent = List Word × List ℕ

abbrev pub write_query : ℤ → ℕ → ℕ → List ℕ → Sent
write_query file_no start offset bytes = (
  code Code.write_file ∷ num file_no ∷ code start ∷ num (pos offset) ∷ code (length bytes) ∷ [],
  bytes,
)

-- The queries are sent to the server behind a handle one after the other, in this order, each is
-- answered SUCCESS, and the server goes from the first state to the second.
abbrev pub Delivered : {Peer : Type 0} → Network Peer → ℕ → List Sent → Peer → Peer → Type 0
Delivered net handle [] p q = p ≡ q
Delivered {Peer = Peer} net handle (m ∷ l) p q =
    (words : List Word) × (bytes : List ℕ) × (r : Peer) × (net.ask handle m.0 m.1 p
      ≡ (some (record { words = code 0 ∷ words; bytes = bytes }), r))
    × Delivered net handle l r q

-- How many queries a write takes
abbrev pub pieces : ℕ → ℕ
pieces n = (n + block_bytes - 1) / block_bytes

-- The bytes in pieces of a block each, sent to one block after the other, all at the same offset
abbrev pub queries : ℕ → ℤ → ℕ → ℕ → List ℕ → List Sent
queries zero file_no start offset bytes = []
queries (suc n) file_no start offset bytes =
    write_query file_no start offset (take block_bytes bytes)
    ∷ queries n file_no (start + block_bytes) offset (drop block_bytes bytes)

pub transfer_size_lem : (n : ℕ) → transfer_size n ≡ min n block_bytes
transfer_size_lem n = ground arith

pub take-least : (k b : ℕ) (l : List ℕ) → k ≡ min (length l) b → take k l ≡ take b l
take-least zero zero l h = refl
take-least zero (suc b) [] h = refl
take-least zero (suc b) (x ∷ l) h = absurd (omega (arith, h))
take-least (suc k) b [] h = absurd (omega (arith, h))
take-least (suc k) zero (x ∷ l) h = absurd (omega (arith, h))
take-least (suc k) (suc b) (x ∷ l) h = ap (◌∷◌ x) (take-least k b l (omega (arith, h)))

pub drop-least : (k b : ℕ) (l : List ℕ) → k ≡ min (length l) b → drop k l ≡ drop b l
drop-least zero zero l h = refl
drop-least zero (suc b) [] h = refl
drop-least zero (suc b) (x ∷ l) h = absurd (omega (arith, h))
drop-least (suc k) b [] h = absurd (omega (arith, h))
drop-least (suc k) zero (x ∷ l) h = absurd (omega (arith, h))
drop-least (suc k) (suc b) (x ∷ l) h = drop-least k b l (omega (arith, h))

-- Up to a block of bytes is one query.
pub queries_one :
    (file_no : ℤ) (start away : ℕ) (bytes : List ℕ)
    → 0 < length bytes
    → length bytes ≤ block_bytes
    → queries (pieces (length bytes)) file_no start away bytes
      ≡ write_query file_no start away bytes ∷ []
queries_one file_no start away bytes some_bytes h =
    ap (λ n. queries n file_no start away bytes) (one_piece (length bytes) some_bytes h)
    ∙ ap (λ l. write_query file_no start away l ∷ [])
        (sym (take-least (length bytes) block_bytes bytes (omega (arith, h)))
          ∙ take_all (length bytes) bytes refl)
  where
    one_piece : (n : ℕ) → 0 < n → n ≤ block_bytes → pieces n ≡ 1
    one_piece n some_bytes h = omega (arith, some_bytes, h)
