-- ===== src/Codegen/Durings.antt =====
-- `active_durings_per_innermost_state` of hsmc-macros/src/codegen.rs. `none` is an index out of range,
-- where the macro panics, or a walk that outlasts its fuel.
pub mod Along
use hsmc.Input.{During}
use hsmc.Ir.{Ir, StateIr}
use hsmc.Prelude.{
  ℕ, zero, suc, ◌+◌, ◌>>=◌, Bool, true, false, ◌&&◌, not, Option, none, some, List, [], ◌∷◌, ◌++◌,
  length, get_elem?,
}

abbrev pub is_empty : {A : Type 0} → List A → Bool
is_empty [] = true
is_empty (x ∷ xs) = false

abbrev pub is_some : Option ℕ → Bool
is_some none = false
is_some (some x) = true

-- `while let Some(id) = cur { .. }`: the durings of a state and its ancestors
unfoldable pub collect : List StateIr → ℕ → Option ℕ → Option (List During)
collect states zero cur = none
collect states (suc fuel) none = some []
collect states (suc fuel) (some id) = elim (get_elem? states id) [
  | none ↦ none
  | some st ↦ do above ← collect states fuel st.parent; some (st.durings ++ above)
]

-- A composite with a default is descended past, and `__Root` is left out.
abbrev pub is_innermost : StateIr → Bool
is_innermost s = not (not (is_empty s.children) && is_some s.default_child) && is_some s.parent

abbrev pub add_chain : ℕ → List During → List (ℕ × List During) → List (ℕ × List During)
add_chain id [] out = out
add_chain id (d ∷ ds) out = (id, d ∷ ds) ∷ out

unfoldable pub for_innermost : List StateIr → List StateIr → Option (List (ℕ × List During))
unfolding collect
for_innermost states [] = some []
for_innermost states (s ∷ rest) = do
  out ← for_innermost states rest
  elim (is_innermost s) [
    | false ↦ some out
    | true ↦ do
      chain ← collect states (length states + 1) (some s.id)
      some (add_chain s.id chain out)
  ]

unfoldable pub active_durings_per_innermost_state : Ir → Option (List (ℕ × List During))
unfolding for_innermost
active_durings_per_innermost_state ir = for_innermost ir.states ir.states
