-- ===== src/Codegen/Checks.antt =====
-- The checks of the emitted tables: verification/src/paths.rs, and the `const` block of assertions that
-- `generate` of hsmc-macros/src/codegen.rs emits, where an assertion that fails is `false`. A `while` loop over a slice is a recursion over its list.
pub mod Correct
pub mod Fits
pub mod Passes
use hsmc.Machine.{Chart}
use hsmc.Prelude.{
  ℕ, Bool, true, false, ◌&&◌, leb, Option, none, some, List, [], ◌∷◌, length, if◌then◌else◌,
}

unfoldable pub check_path_range_invariant : List (ℕ × ℕ × ℕ) → ℕ → Bool
check_path_range_invariant [] data_len = true
check_path_range_invariant ((s, m, e) ∷ rest) data_len =
    let later = check_path_range_invariant rest data_len in
    if leb s m && leb m e && leb e data_len then later else false

unfoldable pub check_terminate_range_invariant : List (ℕ × ℕ) → ℕ → Bool
check_terminate_range_invariant [] data_len = true
check_terminate_range_invariant ((s, e) ∷ rest) data_len =
    let later = check_terminate_range_invariant rest data_len in
    if leb s e && leb e data_len then later else false

unfoldable pub check_state_ids_in_bounds : List ℕ → ℕ → Bool
check_state_ids_in_bounds [] n_states = true
check_state_ids_in_bounds (x ∷ rest) n_states =
    let later = check_state_ids_in_bounds rest n_states in if leb n_states x then false else later

unfoldable pub check_default_child_in_bounds : List (Option ℕ) → ℕ → Bool
check_default_child_in_bounds [] n_states = true
check_default_child_in_bounds (none ∷ rest) n_states = check_default_child_in_bounds rest n_states
check_default_child_in_bounds (some t ∷ rest) n_states =
    let later = check_default_child_in_bounds rest n_states in
    if leb n_states t then false else later

unfoldable pub check_path_tables_sound :
    List (ℕ × ℕ × ℕ) → List ℕ → List (ℕ × ℕ) → List ℕ → List (Option ℕ) → ℕ → Bool
check_path_tables_sound path_range path_data terminate_range terminate_data default_child n_states =
    check_path_range_invariant path_range (length path_data)
    && check_terminate_range_invariant terminate_range (length terminate_data)
    && check_state_ids_in_bounds path_data n_states
    && check_state_ids_in_bounds terminate_data n_states
    && check_default_child_in_bounds default_child n_states

-- The assertions in their order; the number of states is read off `__DEFAULT_CHILD`.
unfoldable pub const_assertions : Chart → Bool
const_assertions chart =
    let n = length chart.default_child in
    check_path_range_invariant chart.path_range (length chart.path_data)
    && check_terminate_range_invariant chart.terminate_range (length chart.terminate_data)
    && check_default_child_in_bounds chart.default_child n
    && check_state_ids_in_bounds chart.path_data n
    && check_state_ids_in_bounds chart.terminate_data n
