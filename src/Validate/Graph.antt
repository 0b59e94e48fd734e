-- ===== src/Validate/Graph.antt =====
-- `validate_default_graph` of hsmc-macros/src/validate.rs: the walk over the default edges. Fuel bounds
-- a chain: every round but the last paints a state.
pub mod Colors
pub mod Chase
pub mod Correct
pub mod Rank
use Prim.Native.String.{String}
use hsmc.Ir.{StateIr}
use hsmc.Lower.{index_of}
use hsmc.Prelude.{
  ℕ, zero, suc, ◌+◌, ◌==◌, none, some, List, [], ◌∷◌, ◌++◌, length, get_elem?, set, drop,
}
use hsmc.Refusal.{Result, accepted, refused, panicked, out_of_fuel, default_cycle, ◌>>=◌}

-- 0, 1 and 2
pub data Color : Type 0 where
  white gray black : Color

abbrev pub all_white : ℕ → List Color
all_white zero = []
all_white (suc n) = white ∷ all_white n

abbrev pub names_of : List StateIr → List ℕ → Result (List String)
names_of states [] = accepted []
names_of states (id ∷ ids) = elim (get_elem? states id) [
  | none ↦ refused panicked
  | some st ↦ do names ← names_of states ids; accepted (st.name ∷ names)
]

-- A back edge to `cur`: the part of the chain that starts there.
unfoldable pub report_cycle : List StateIr → ℕ → List ℕ → Result (List Color × List ℕ)
report_cycle states cur chain = elim (index_of (λ x. x == cur) 0 chain) [
  | none ↦ refused panicked
  | some start ↦ do names ← names_of states (drop start chain); refused (default_cycle names)
]

-- The inner loop, from `cur`; the colours and the chain.
unfoldable pub chase : List StateIr → ℕ → ℕ → List Color → List ℕ → Result (List Color × List ℕ)
unfolding report_cycle
chase states zero cur color chain = refused out_of_fuel
chase states (suc fuel) cur color chain = elim (get_elem? color cur) [
  | none ↦ refused panicked
  | some c ↦ elim c [
    | black ↦ accepted (color, chain)
    | gray ↦ report_cycle states cur chain
    | white ↦ elim (get_elem? states cur) [
      | none ↦ refused panicked
      | some st ↦ elim st.default_child [
        | none ↦ accepted (set color cur gray, chain ++ cur ∷ [])
        | some next ↦ chase states fuel next (set color cur gray) (chain ++ cur ∷ [])
      ]
    ]
  ]
]

-- `for &id in &chain { color[id] = 2; }`
abbrev pub paint : List ℕ → List Color → List Color
paint [] color = color
paint (id ∷ ids) color = paint ids (set color id black)

-- The outer loop over the starts that are left.
unfoldable pub check_starts : List StateIr → (left start : ℕ) → List Color → Result (Unit {0})
unfolding chase
check_starts states zero start color = accepted tt
check_starts states (suc left) start color = elim (get_elem? color start) [
  | none ↦ refused panicked
  | some c ↦ elim c [
    | black ↦ check_starts states left (start + 1) color
    | gray ↦ check_starts states left (start + 1) color
    | white ↦ do
      r ← chase states (length states + 1) start color []
      check_starts states left (start + 1) (paint r.1 r.0)
  ]
]

unfoldable pub validate_default_graph : List StateIr → Result (Unit {0})
unfolding check_starts
validate_default_graph states = check_starts states (length states) 0 (all_white (length states))
