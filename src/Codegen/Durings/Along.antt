-- ===== src/Codegen/Durings/Along.antt =====
-- `active_durings_per_innermost_state` of hsmc-macros/src/codegen.rs against the active paths.
use hsmc.Codegen.Durings.{add_chain}
use hsmc.Codegen.Walks.Tree.{chain}
use hsmc.Input.{During}
use hsmc.Ir.{Ir, StateIr, parent_of}
use hsmc.Prelude.{ℕ, true, false, Bool, none, some, List, [], ◌∷◌, ◌++◌, get_elem?}

-- The durings of the states on a path, in its order.
abbrev pub durings_along : List StateIr → List ℕ → List During
durings_along states [] = []
durings_along states (s ∷ path) = elim (get_elem? states s) [
  | none ↦ durings_along states path
  | some st ↦ st.durings ++ durings_along states path
]

-- Below the root, and the default descent stops: a leaf, or a composite without a default.
abbrev pub stops_descent : StateIr → Bool
stops_descent s = elim s.parent [
  | none ↦ false
  | some p ↦ elim s.children [
    | [] ↦ true
    | c ∷ cs ↦ elim s.default_child [ none ↦ true | some d ↦ false ]
  ]
]

-- The states at which the default descent stops, in order: the durings on the active path of each, if
-- there are some.
abbrev pub stopping_durings : List StateIr → List StateIr → List (ℕ × List During)
stopping_durings states [] = []
stopping_durings states (s ∷ rest) = elim (stops_descent s) [
  | false ↦ stopping_durings states rest
  | true ↦
      add_chain s.id (durings_along states (chain (parent_of states) s.id))
        (stopping_durings states rest)
]
