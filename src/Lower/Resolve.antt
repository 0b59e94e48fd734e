-- ===== src/Lower/Resolve.antt =====
-- `resolve_transitions` of hsmc-macros/src/ir.rs. A `HashMap` is an association list whose head is
-- the insertion that came last.
pub mod Correct
pub mod Targets
pub mod Refused
pub mod Means
use Prim.Native.String.{String}
use text.Mathlib.Text.{◌==◌ as str_eq}
use hsmc.Ir.{Ir, StateIr, HandlerIr, HandlerKindIr, transition, action}
use hsmc.Prelude.{ℕ, Option, none, some, List, [], ◌∷◌, if◌then◌else◌}
use hsmc.Refusal.{Result, accepted, refused, unknown_target, unknown_default, ◌>>=◌}

abbrev pub NameMap : Type 0
NameMap = List (String × ℕ)

abbrev pub lookup_name : String → NameMap → Option ℕ
lookup_name n [] = none
lookup_name n ((k, id) ∷ rest) =
    let found = lookup_name n rest in if str_eq k n then some id else found

-- The states but the root, by name.
abbrev pub insert_states : List StateIr → NameMap → NameMap
insert_states [] m = m
insert_states (s ∷ rest) m =
    insert_states rest (if str_eq s.name "__Root" then m else (s.name, s.id) ∷ m)

-- `ir.states.iter().find(|s| s.parent.is_none())`
abbrev pub find_root : List StateIr → Option StateIr
find_root [] = none
find_root (s ∷ rest) = elim s.parent [ none ↦ some s | some p ↦ find_root rest ]

-- The root is named by the chart.
unfoldable pub name_map : Ir → NameMap
name_map ir = elim (find_root ir.states) [
  | none ↦ insert_states ir.states []
  | some root ↦ (ir.name, root.id) ∷ insert_states ir.states []
]

unfoldable pub resolve_kind : NameMap → HandlerKindIr → Result HandlerKindIr
resolve_kind m (HandlerKindIr.action id name) = accepted (action id name)
resolve_kind m (HandlerKindIr.transition target (some slot)) =
    accepted (transition target (some slot))
resolve_kind m (HandlerKindIr.transition target none) = elim (lookup_name target m) [
  | none ↦ refused (unknown_target target)
  | some id ↦ accepted (transition target (some id))
]

abbrev pub resolve_handlers : NameMap → List HandlerIr → Result (List HandlerIr)
resolve_handlers m [] = accepted []
resolve_handlers m (h ∷ rest) = do
  kind ← resolve_kind m h.kind
  hs ← resolve_handlers m rest
  accepted (record h { kind = kind } ∷ hs)

-- The first loop over the states.
abbrev pub resolve_targets : NameMap → List StateIr → Result (List StateIr)
resolve_targets m [] = accepted []
resolve_targets m (s ∷ rest) = do
  hs ← resolve_handlers m s.handlers
  states ← resolve_targets m rest
  accepted (record s { handlers = hs } ∷ states)

unfoldable pub resolve_default : NameMap → StateIr → Result StateIr
resolve_default m s = elim s.default_target_ident [
  | none ↦ accepted s
  | some name ↦ elim (lookup_name name m) [
    | none ↦ refused (unknown_default name)
    | some id ↦ accepted (record s { default_child = some id })
  ]
]

-- The second loop.
abbrev pub resolve_defaults : NameMap → List StateIr → Result (List StateIr)
resolve_defaults m [] = accepted []
resolve_defaults m (s ∷ rest) = do
  s' ← resolve_default m s
  states ← resolve_defaults m rest
  accepted (s' ∷ states)

unfoldable pub resolve_transitions : Ir → Result Ir
resolve_transitions ir = do
  let m = name_map ir
  targeted ← resolve_targets m ir.states
  states ← resolve_defaults m targeted
  accepted (record ir { states = states })
