-- ===== src/IoNode/Access/Laws.antt =====
-- What the accesses to an IOnode's files and blocks read and change.
use huron_fs.Prelude.{ℕ, ◌≡◌, refl, ap, ◌∙◌, ◌⊎◌, inl, inr, false, Option, none, some, arith}
use huron_fs.Prelude.Int.{ℤ}
use huron_fs.Prelude.Map.{
  ℕ_key, ℤ_key, Map, same, find, set, find-set, find-set_self, find-set_other, same_iff,
}
use huron_fs.Exec.{returns}
use huron_fs.IoNode.{IoNode, File, Block, BlockId}
use huron_fs.IoNode.Access.{
  find_block, read_block, put_block, set_block, with_block, read_file, file_at,
}

-- Two blocks are different.
abbrev pub Other : BlockId → BlockId → Type 0
Other a b = (same a.0 b.0 ≡ false) ⊎ (same a.1 b.1 ≡ false)

-- A block that is found has a file.
file_of :
    (f : Option File) (start_point : ℕ) (b : Block)
    → (elim f [ none ↦ none | some f ↦ find start_point f.blocks ]) ≡ some b
    → (g : File) × (f ≡ some g) × (find start_point g.blocks ≡ some b)
file_of none start_point b h = absurd (ground (arith, h))
file_of (some f) start_point b h = (f, refl, h)

abbrev lookup : ℤ → ℕ → Map ℤ File → Option Block
lookup n p files = elim (find n files) [ none ↦ none | some f ↦ find p f.blocks ]

with_block-at :
    (id : BlockId) (b : Block) (f : File) (files : Map ℤ File)
    → find id.0 files ≡ some f
    → with_block id b files ≡ set id.0 (record f { blocks = set id.1 b f.blocks }) files
with_block-at id b f files h = rw (with_block, h) refl

pub find-with_block :
    (id : BlockId) (b : Block) (f : File) (files : Map ℤ File)
    → find id.0 files ≡ some f
    → find id.0 (with_block id b files) ≡ some (record f { blocks = set id.1 b f.blocks })
find-with_block id b f files h =
    ap (find id.0) (with_block-at id b f files h)
    ∙ find-set_self id.0 (record f { blocks = set id.1 b f.blocks }) files

set_self :
    (id : BlockId) (b : Block) (f : File) (files : Map ℤ File)
    → lookup id.0 id.1 (set id.0 (record f { blocks = set id.1 b f.blocks }) files) ≡ some b
set_self id b f files = ground (
  arith,
  find-set_self id.0 (record f { blocks = set id.1 b f.blocks }) files,
  find-set_self id.1 b f.blocks,
)

lookup-set-Other :
    (id other : BlockId) (b : Block) (f : File) (files : Map ℤ File)
    → find id.0 files ≡ some f
    → Other id other
    → lookup other.0 other.1 (set id.0 (record f { blocks = set id.1 b f.blocks }) files)
      ≡ lookup other.0 other.1 files
lookup-set-Other id other b f files h (inl d) =
    ground
      (arith, h, d, find-set_other id.0 other.0 (record f { blocks = set id.1 b f.blocks }) files d)
lookup-set-Other id other b f files h (inr d) = ground (
  arith,
  h,
  d,
  find-set id.0 other.0 (record f { blocks = set id.1 b f.blocks }) files,
  find-set_other id.1 other.1 b f.blocks d,
  same_iff id.0 other.0,
)

set-file :
    (n : ℤ) (x : BlockId) (f g : File) (files : Map ℤ File)
    → find n files ≡ some f
    → g.blocks ≡ f.blocks
    → lookup x.0 x.1 (set n g files) ≡ lookup x.0 x.1 files
set-file n x f g files h e =
    ground (arith, h, ap (find x.1) e, find-set n x.0 g files, same_iff n x.0)

module _ {Disk : Type 0} where
  pub find_block-file :
      (id : BlockId) (b : Block) (s : IoNode Disk)
      → find_block id s ≡ some b
      → (f : File) × (find id.0 s.files ≡ some f) × (find id.1 f.blocks ≡ some b)
  find_block-file id b s h = file_of (find id.0 s.files) id.1 b h

  pub find_block-in :
      (id : BlockId) (f : File) (s : IoNode Disk)
      → find id.0 s.files ≡ some f
      → find_block id s ≡ find id.1 f.blocks
  find_block-in id f s h = rw (find_block, h) refl

  pub run-read_block :
      (id : BlockId) (b : Block) (s : IoNode Disk)
      → find_block id s ≡ some b
      → read_block id s ≡ returns b s
  run-read_block id b s h = rw (read_block, h) refl

  pub run-read_file :
      (file_no : ℤ) (f : File) (s : IoNode Disk)
      → find file_no s.files ≡ some f
      → read_file file_no s ≡ returns f s
  run-read_file file_no f s h = rw (read_file, h) refl

  put_block-at :
      (id : BlockId) (f : File) (b : Block) (s : IoNode Disk)
      → find id.0 s.files ≡ some f
      → put_block id b s ≡ returns tt (set_block id b s)
  put_block-at id f b s h = rw (put_block, h) refl

  pub run-put_block :
      (id : BlockId) (o b : Block) (s : IoNode Disk)
      → find_block id s ≡ some o
      → put_block id b s ≡ returns tt (set_block id b s)
  run-put_block id o b s h =
      put_block-at id (find_block-file id o s h).0 b s (find_block-file id o s h).1

  pub find_block-set_block :
      (id : BlockId) (o b : Block) (s : IoNode Disk)
      → find_block id s ≡ some o
      → find_block id (set_block id b s) ≡ some b
  find_block-set_block id o b s h =
      let f : File = (find_block-file id o s h).0 in
      ap (lookup id.0 id.1) (with_block-at id b f s.files (find_block-file id o s h).1)
      ∙ set_self id b f s.files

  pub find_block-set_block-Other :
      (id other : BlockId) (o b : Block) (s : IoNode Disk)
      → find_block id s ≡ some o
      → Other id other
      → find_block other (set_block id b s) ≡ find_block other s
  find_block-set_block-Other id other o b s h d =
      let f : File = (find_block-file id o s h).0 in
      ap (lookup other.0 other.1) (with_block-at id b f s.files (find_block-file id o s h).1)
      ∙ lookup-set-Other id other b f s.files (find_block-file id o s h).1 d

  pub run-file_at :
      (file_no : ℤ) (f : File) (s : IoNode Disk)
      → find file_no s.files ≡ some f
      → file_at file_no s ≡ returns f s
  run-file_at file_no f s h = rw (file_at, h) refl

  -- A file that keeps its blocks
  pub find_block-put_file :
      (n : ℤ) (x : BlockId) (f g : File) (s : IoNode Disk)
      → find n s.files ≡ some f
      → g.blocks ≡ f.blocks
      → find_block x (record s { files = set n g s.files }) ≡ find_block x s
  find_block-put_file n x f g s h e = set-file n x f g s.files h e
