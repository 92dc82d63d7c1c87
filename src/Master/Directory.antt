-- ===== src/Master/Directory.antt =====
-- Master::_get_file_stat_from_dir: the names in a directory, read off the sorted paths.
use huron_fs.Prelude.{
  ℕ, suc, Bool, true, false, [], ◌∷◌, ◌==◌, ◌&&◌, if◌then◌else◌, length, drop, Ordering,
}
use huron_fs.Prelude.Map.{path_key, Map, FilePath, order_bytes, same, set}
use huron_fs.Master.{Set, MasterFileStat}

abbrev pub slash : ℕ
slash = b'/'

-- The last byte of a path; dir[dir.size()-1]
unfoldable pub ends_in_slash : FilePath → Bool
ends_in_slash [] = false
ends_in_slash (c ∷ []) = c == slash
ends_in_slash (c ∷ d ∷ r) = ends_in_slash (d ∷ r)

-- 0 == file_name.compare(0, dir.size(), dir)
unfoldable pub starts_with : FilePath → FilePath → Bool
starts_with [] name = true
starts_with (c ∷ dir) [] = false
starts_with (c ∷ dir) (d ∷ name) = let rest = starts_with dir name in c == d && rest

-- The part before the next slash, or all.
unfoldable pub before_slash : FilePath → FilePath
before_slash [] = []
before_slash (c ∷ r) = let rest = before_slash r in if c == slash then [] else c ∷ rest

-- _file_stat_pool.lower_bound(dir)
unfoldable pub lower_bound : FilePath → Map FilePath MasterFileStat → Map FilePath MasterFileStat
lower_bound dir [] = []
lower_bound dir ((p, st) ∷ m) =
    let rest = lower_bound dir m in
    elim (order_bytes p dir) [ Ordering.lt ↦ rest | _ ↦ (p, st) ∷ m ]

-- ++it if the entry is that of the directory itself
unfoldable pub skip_self : FilePath → Map FilePath MasterFileStat → Map FilePath MasterFileStat
skip_self dir [] = []
skip_self dir ((p, st) ∷ m) = if same p dir then m else (p, st) ∷ m

-- The loop: names as long as the paths begin like the directory.
unfoldable pub collect : FilePath → ℕ → Map FilePath MasterFileStat → Set FilePath → Set FilePath
collect dir start_pos [] files = files
collect dir start_pos ((p, st) ∷ m) files =
    let rest = collect dir start_pos m (set (before_slash (drop start_pos p)) tt files) in
    if starts_with dir p then rest else files

unfoldable pub get_file_stat_from_dir : FilePath → Map FilePath MasterFileStat → Set FilePath
get_file_stat_from_dir dir pool =
    collect dir (if ends_in_slash dir then length dir else suc (length dir))
      (skip_self dir (lower_bound dir pool)) []
