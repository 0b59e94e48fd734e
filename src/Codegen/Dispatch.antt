-- ===== src/Codegen/Dispatch.antt =====
-- `compute_event_dispatch` of hsmc-macros/src/codegen.rs. `none` is an index out of range, where the
-- macro panics, or a walk that outlasts its fuel; `sort_by_key` is stable, and a `BTreeMap` is read
-- through an association list.
pub mod Nearest
use mathlib.Core.Option
use hsmc.Codegen.Tables.{rows}
use hsmc.Ir.{
  Ir, StateIr, HandlerIr, HandlerKindIr, as_u16, u16_max, parent_of, event, duration, transition,
  action,
}
use hsmc.Prelude.{
  ℕ, zero, suc, ◌+◌, ◌==◌, leb, if◌then◌else◌, ◌>>=◌, Option, none, some, List, [], ◌∷◌, ◌++◌,
  length, get_elem?,
}

-- The handlers of one event in one state: the action ids and the target.
abbrev pub Slot : Type 0
Slot = List ℕ × Option ℕ

-- `StateHandlers`
abbrev pub StateHandlers : Type 0
StateHandlers = List (ℕ × Slot)

abbrev pub get : ℕ → StateHandlers → Option Slot
get k [] = none
get k ((k', v) ∷ rest) = if k == k' then some v else get k rest

-- A change of `entry(k).or_default()`.
abbrev pub update : ℕ → (Slot → Slot) → StateHandlers → StateHandlers
update k f [] = (k, f ([], none)) ∷ []
update k f ((k', v) ∷ rest) = if k == k' then (k', f v) ∷ rest else (k', v) ∷ update k f rest

abbrev pub insert_handler : HandlerIr → List HandlerIr → List HandlerIr
insert_handler h [] = h ∷ []
insert_handler h (x ∷ xs) =
    if leb h.decl_index x.decl_index then h ∷ x ∷ xs else x ∷ insert_handler h xs

-- `handlers.sort_by_key(|h| h.decl_index)`
abbrev pub sort_handlers : List HandlerIr → List HandlerIr
sort_handlers [] = []
sort_handlers (h ∷ hs) = insert_handler h (sort_handlers hs)

abbrev pub add_kind : HandlerKindIr → Slot → Slot
add_kind (action aid name) (actions, target) = (actions ++ aid ∷ [], target)
add_kind (transition name (some tid)) (actions, target) = (actions, some tid)
add_kind (transition name none) slot = slot

-- `for h in handlers { .. }`
abbrev pub aggregate : List HandlerIr → StateHandlers → StateHandlers
aggregate [] acc = acc
aggregate (h ∷ hs) acc = elim h.trigger [
  | event id variant payload ↦ aggregate hs (update id (add_kind h.kind) acc)
  | duration id ↦ aggregate hs acc
]

-- `per_state[s]`
unfoldable pub per_state : List StateIr → ℕ → Option StateHandlers
per_state states s =
    Option.map (λ (st : StateIr). aggregate (sort_handlers st.handlers) []) (get_elem? states s)

-- `while let Some(s) = cur { .. }`: the state that takes the event, and its slot
unfoldable pub bubble : List StateIr → ℕ → ℕ → Option ℕ → Option (Option (ℕ × Slot))
bubble states ev zero cur = none
bubble states ev (suc fuel) none = some none
bubble states ev (suc fuel) (some s) = elim (per_state states s) [
  | none ↦ none
  | some handlers ↦ elim (get ev handlers) [
    | some slot ↦ some (some (s, slot))
    | none ↦ bubble states ev fuel (parent_of states s)
  ]
]

-- An entry of `__DISPATCH`.
abbrev pub Entry : Type 0
Entry = ℕ × List ℕ × Option ℕ

-- `resolved.unwrap_or((u16::MAX, Vec::new(), None))`
abbrev pub entry_of : Option (ℕ × Slot) → Entry
entry_of none = (u16_max, [], none)
entry_of (some (s, slot)) = (s, slot.0, slot.1)

unfoldable pub fill : List StateIr → List (ℕ × ℕ) → Option (List Entry)
fill states [] = some []
fill states ((s, ev) ∷ rest) = do
  resolved ← bubble states ev (length states + 1) (some (as_u16 s))
  out ← fill states rest
  some (entry_of resolved ∷ out)

unfoldable pub compute_event_dispatch : Ir → Option (List Entry)
compute_event_dispatch ir =
    fill ir.states (rows (as_u16 (length ir.event_variants)) (length ir.states) 0)
