-- ===== src/Codegen/Tables.antt =====
-- The path tables of hsmc-macros/src/codegen.rs: `compute_transition_paths`, its consolidation into
-- `__PATH_DATA` and `__PATH_RANGE` in `generate`, and `compute_terminate_paths`. `none` is a panic of
-- the macro: an offset past `u16`, or a walk that fails.
pub mod Slices
pub mod Lookup
pub mod Terminate
use hsmc.Prelude.{
  ℕ, zero, suc, ◌+◌, Option, none, some, List, [], ◌∷◌, ◌++◌, leb, if◌then◌else◌, length, slice,
  ◌>>=◌,
}
use hsmc.Ir.{StateIr, as_u16, u16_max, parent_of, depth_of}
use hsmc.Codegen.Walks.{compute_one, terminate_walk}

-- `.try_into().expect(..)` to a `u16`
abbrev pub to_u16 : ℕ → Option ℕ
to_u16 n = if leb n u16_max then some n else none

-- A flat blob of state ids and the ranges into it.
pub record Blob : Type 0 where
  pub blob : List ℕ
  pub range : List (ℕ × ℕ)

abbrev pub no_blob : Blob
no_blob = record { blob = []; range = [] }

-- The block that extends a blob by one path and records its range.
unfoldable pub extend : Blob → List ℕ → Option Blob
extend b path = do
  start ← to_u16 (length b.blob)
  let blob' = b.blob ++ path
  stop ← to_u16 (length blob')
  some (record { blob = blob'; range = b.range ++ (start, stop) ∷ [] })

pub record TransitionPathTables : Type 0 where
  pub exits : Blob
  pub enters : Blob

-- `for from in 0..n` and `for to in 0..n`, in order
unfoldable pub row : ℕ → ℕ → ℕ → List (ℕ × ℕ)
row zero from to = []
row (suc k) from to = (from, to) ∷ row k from (to + 1)

unfoldable pub rows : ℕ → ℕ → ℕ → List (ℕ × ℕ)
unfolding row
rows n zero from = []
rows n (suc k) from = row n from 0 ++ rows n k (from + 1)

module _ (parent : ℕ → Option ℕ) (depth : ℕ → ℕ) (fuel : ℕ) where
  unfoldable pub for_pairs : List (ℕ × ℕ) → TransitionPathTables → Option TransitionPathTables
  unfolding extend
  for_pairs [] t = some t
  for_pairs ((from, to) ∷ rest) t = do
    paths ← compute_one parent depth fuel from to
    exits' ← extend t.exits paths.0
    enters' ← extend t.enters paths.1
    for_pairs rest (record { exits = exits'; enters = enters' })

unfoldable pub compute_transition_paths : List StateIr → Option TransitionPathTables
unfolding rows for_pairs
compute_transition_paths states =
    let n = length states in
    for_pairs (parent_of states) (depth_of states) n (rows (as_u16 n) (as_u16 n) 0)
      (record { exits = no_blob; enters = no_blob })

-- `__PATH_DATA` and `__PATH_RANGE`
pub record PathTable : Type 0 where
  pub path_data : List ℕ
  pub path_range : List (ℕ × ℕ × ℕ)

-- The body of the loop: one pair's exit path, then its enter path.
unfoldable pub append_pair : List ℕ → List ℕ → PathTable → Option PathTable
append_pair exit enter t = do
  start ← to_u16 (length t.path_data)
  let data_1 = t.path_data ++ exit
  mid ← to_u16 (length data_1)
  let data_2 = data_1 ++ enter
  stop ← to_u16 (length data_2)
  some (record { path_data = data_2; path_range = t.path_range ++ (start, mid, stop) ∷ [] })

-- `for ((es, ee), (ns, ne)) in exit_range.zip(enter_range)` of `generate`
unfoldable pub merge : List ℕ → List ℕ → List (ℕ × ℕ) → List (ℕ × ℕ) → PathTable → Option PathTable
unfolding append_pair
merge exit_data enter_data ((es, ee) ∷ exits) ((ns, ne) ∷ enters) t = do
  t' ← append_pair (slice es ee exit_data) (slice ns ne enter_data) t
  merge exit_data enter_data exits enters t'
merge exit_data enter_data [] enters t = some t
merge exit_data enter_data (r ∷ exits) [] t = some t

unfoldable pub path_table : List StateIr → Option PathTable
unfolding compute_transition_paths merge
path_table states = do
  t ← compute_transition_paths states
  merge t.exits.blob t.enters.blob t.exits.range t.enters.range
      (record { path_data = []; path_range = [] })

unfoldable pub for_states : (parent : ℕ → Option ℕ) (fuel k from : ℕ) → Blob → Option Blob
unfolding extend
for_states parent fuel zero from b = some b
for_states parent fuel (suc k) from b = do
  path ← terminate_walk parent fuel from
  b' ← extend b path
  for_states parent fuel k (from + 1) b'

-- `__TERMINATE_DATA` and `__TERMINATE_RANGE`
unfoldable pub compute_terminate_paths : List StateIr → Option Blob
unfolding for_states
compute_terminate_paths states =
    for_states (parent_of states) (length states) (as_u16 (length states)) 0 no_blob
