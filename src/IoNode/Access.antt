-- ===== src/IoNode/Access.antt =====
-- How the operations of an IOnode reach its files and blocks.
pub mod Laws
use huron_fs.Prelude.{ℕ, ◌+◌, Option, none, some, List, [], ◌∷◌, ◌++◌}
use huron_fs.Prelude.Int.{ℤ, pos, negsuc}
use huron_fs.Prelude.Map.{ℕ_key, ℤ_key, Map, FilePath, find, set, insert, erase}
use huron_fs.Exec.{◌>>=◌, ◌>>◌, returns, throws, undefined, pure, gets, modify, deref, at}
use huron_fs.IoNode.{IoNode, M, File, Block, BlockId, Message}

-- Assignment of a block behind a pointer, where its file is
abbrev pub with_block : BlockId → Block → Map ℤ File → Map ℤ File
with_block id b files = elim (find id.0 files) [
  | none ↦ files
  | some f ↦ set id.0 (record f { blocks = set id.1 b f.blocks }) files
]

module _ {Disk : Type 0} where
  -- _files.at(file_no)
  abbrev pub file_at : ℤ → M Disk File
  file_at file_no = do f ← gets (λ s. find file_no s.files); at f

  -- A file behind a pointer
  abbrev pub read_file : ℤ → M Disk File
  read_file file_no = do f ← gets (λ s. find file_no s.files); deref f

  abbrev pub put_file : ℤ → File → M Disk (Unit {0})
  put_file file_no f = modify λ s. record s { files = set file_no f s.files }

  abbrev pub find_block : BlockId → IoNode Disk → Option Block
  find_block id s = elim (find id.0 s.files) [ none ↦ none | some f ↦ find id.1 f.blocks ]

  -- A block behind a pointer
  abbrev pub read_block : BlockId → M Disk Block
  read_block id = do b ← gets (find_block id); deref b

  abbrev pub set_block : BlockId → Block → IoNode Disk → IoNode Disk
  set_block id b s = record s { files = with_block id b s.files }

  abbrev pub put_block : BlockId → Block → M Disk (Unit {0})
  put_block id b s = elim (find id.0 s.files) [
    | none ↦ undefined
    | some _ ↦ returns tt (set_block id b s)
  ]

  -- output_task_enqueue
  abbrev pub send : Message → M Disk (Unit {0})
  send m = modify λ s. record s { output = s.output ++ m ∷ [] }

  -- init_response_task, push_back of one number, output_task_enqueue
  abbrev pub reply : ℕ → ℤ → M Disk (Unit {0})
  reply client n = send (record { target = client; body = n ∷ []; segments = [] })

-- SUCCESS, FAILURE and FILE_NOT_FOUND
abbrev pub success : ℤ
success = pos 0

abbrev pub failure : ℤ
failure = negsuc 0

abbrev pub file_not_found : ℤ
file_not_found = pos 51

-- EXISTING
abbrev pub existing : ℕ
existing = 1
