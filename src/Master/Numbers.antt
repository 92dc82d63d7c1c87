-- ===== src/Master/Numbers.antt =====
-- The pools of numbers: Master::_get_node_id, _get_file_no and _release_file_no.
pub mod Laws
mod Tests
use huron_fs.Prelude.{
  ℕ, zero, suc, ◌+◌, ◌-◌, Bool, true, false, Option, none, some, length, ◌==◌, if◌then◌else◌,
}
use huron_fs.Prelude.Int.{ℤ, pos, negsuc}
use huron_fs.Master.{Master, M, Outcome, returns}

-- MAX_IONODE and MAX_FILE_NUMBER
abbrev pub max_io_node : ℕ
max_io_node = 1000

abbrev pub max_file_number : ℕ
max_file_number = 1000000

unfoldable pub mark : ℕ → Bool → (ℕ → Bool) → ℕ → Bool
mark n b pool k = if k == n then b else pool k

-- for(; current < limit; ++current) if(!pool[current]) return it; the first argument is
-- limit - current.
unfoldable pub scan : ℕ → ℕ → (ℕ → Bool) → Option ℕ
scan zero current pool = none
scan (suc left) current pool =
    let rest : Option ℕ = scan left (suc current) pool in
    if pool current then rest else some current

-- The two loops one after the other: from the current number on, and from 0 on.
unfoldable pub scan_twice : ℕ → ℕ → (ℕ → Bool) → Option ℕ
scan_twice limit current pool = elim (scan (limit - current) current pool) [
  | none ↦ scan limit 0 pool
  | some n ↦ some n
]

-- Master::_get_file_no. The search that fails leaves the current number at the limit.
unfoldable pub take_file_no : ℕ → Master → Option ℕ → Outcome Master ℤ
take_file_no limit s none = returns (negsuc 0) (record s { current_file_no = limit })
take_file_no limit s (some n) = returns (pos n) (record s {
  file_no_pool = mark n true s.file_no_pool;
  file_number = s.file_number + 1;
  current_file_no = suc n;
})

unfoldable pub get_file_no_below : ℕ → M ℤ
get_file_no_below limit s =
    if s.file_number == limit
    then returns (negsuc 0) s
    else take_file_no limit s (scan_twice limit s.current_file_no s.file_no_pool)

unfoldable pub get_file_no : M ℤ
get_file_no = get_file_no_below max_file_number

-- Master::_release_file_no; the pool has no entry for a negative number.
unfoldable pub release_file_no : ℤ → M (Unit {0})
release_file_no (pos n) s =
    returns tt
      (record s { file_number = s.file_number - 1; file_no_pool = mark n false s.file_no_pool })
release_file_no (negsuc n) s = Outcome.undefined

-- Master::_get_node_id
unfoldable pub take_node_id : ℕ → Master → Option ℕ → Outcome Master ℤ
take_node_id limit s none = returns (negsuc 0) (record s { current_node_number = limit })
take_node_id limit s (some n) =
    returns (pos n)
      (record s { node_id_pool = mark n true s.node_id_pool; current_node_number = n })

unfoldable pub get_node_id_below : ℕ → M ℤ
get_node_id_below limit s =
    if length s.registered_io_nodes == limit
    then returns (negsuc 0) s
    else take_node_id limit s (scan_twice limit s.current_node_number s.node_id_pool)

unfoldable pub get_node_id : M ℤ
get_node_id = get_node_id_below max_io_node
