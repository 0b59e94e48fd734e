-- ===== src/Validate.antt =====
-- hsmc-macros/src/validate.rs: the checks of the lowered states and of the parsed tree. Spans are left
-- out. A set or a map of names is a list.
pub mod Graph
pub mod Handlers
pub mod Correct
pub mod Tree
use Prim.Native.String.{String}
use text.Mathlib.Text.{◌==◌ as str_eq}
use hsmc.Input.{During, Items, StateBody, StateDecls, StatechartInput, body, nil, cons}
use hsmc.Ir.{Ir, StateIr, HandlerIr, HandlerKindIr, TriggerIr, DurationTrigger}
use hsmc.Lower.Bodies.{has_name}
use hsmc.Lower.Resolve.{NameMap, name_map, lookup_name}
use hsmc.Prelude.{
  ℕ, ◌==◌, ltb, Bool, true, false, ◌&&◌, Option, none, some, List, [], ◌∷◌, if◌then◌else◌,
  get_elem?,
}
use hsmc.Refusal.{
  Refusal, Result, accepted, refused, panicked, duplicate_state, empty_state, repeated_field,
  shared_field, many_defaults, many_terminates, inner_terminate, unknown_target,
  duplicate_transition, transition_too_early, action_too_late, ◌>>=◌,
}
use hsmc.Validate.Graph.{validate_default_graph}

-- The keys of the two maps of triggers: `ev:{}` with a name, `dur:{}` with an id.
pub data Key : Type 0 where
  ev : String → Key
  dur : ℕ → Key

abbrev pub key_of : TriggerIr → Key
key_of (TriggerIr.event id variant payload) = ev variant
key_of (TriggerIr.duration id) = dur id

abbrev pub same_key : Key → Key → Bool
same_key (ev a) (ev b) = str_eq a b
same_key (dur a) (dur b) = a == b
same_key (ev a) (dur b) = false
same_key (dur a) (ev b) = false

-- A map from triggers to a `decl_index`; the insertion that came last stands first.
abbrev pub Marks : Type 0
Marks = List (Key × ℕ)

abbrev pub mark_of : Key → Marks → Option ℕ
mark_of k [] = none
mark_of k ((k', i) ∷ rest) = let found = mark_of k rest in if same_key k' k then some i else found

-- `trig_display`
abbrev pub display_of : List DurationTrigger → TriggerIr → Result String
display_of durations (TriggerIr.event id variant payload) = accepted variant
display_of durations (TriggerIr.duration id) = elim (get_elem? durations id) [
  | none ↦ refused panicked
  | some d ↦ accepted d.key
]

-- An action declared after `i`, which stands before the transition.
abbrev pub after_action : String → String → ℕ → Option ℕ → Result (Unit {0})
after_action display target i none = accepted tt
after_action display target i (some last) =
    if ltb i last then refused (transition_too_early display target) else accepted tt

-- A transition declared before `i`, which stands before the action.
abbrev pub after_transition : String → ℕ → Option ℕ → Result (Unit {0})
after_transition display i none = accepted tt
after_transition display i (some txn) =
    if ltb txn i then refused (action_too_late display) else accepted tt

-- The `match` on the kind of a handler: `trig_txn_seen` and `trig_last_action_idx` after it.
abbrev pub check_kind :
    NameMap → String → String → Key → ℕ → HandlerKindIr → Marks → Marks → Result (Marks × Marks)
check_kind names state display k i (HandlerKindIr.transition target slot) txns actions =
    elim (mark_of k txns) [
      | some prev ↦ refused (duplicate_transition display state)
      | none ↦ elim (lookup_name target names) [
        | none ↦ refused (unknown_target target)
        | some id ↦ do
          once ← after_action display target i (mark_of k actions)
          accepted ((k, i) ∷ txns, actions)
      ]
    ]
check_kind names state display k i (HandlerKindIr.action id name) txns actions = do
  once ← after_transition display i (mark_of k txns)
  accepted (txns, (k, i) ∷ actions)

-- `for h in &s.handlers`
unfoldable pub check_handlers :
    NameMap → List DurationTrigger → String → List HandlerIr → Marks → Marks → Result (Unit {0})
check_handlers names durations state [] txns actions = accepted tt
check_handlers names durations state (h ∷ rest) txns actions = do
  display ← display_of durations h.trigger
  r ← check_kind names state display (key_of h.trigger) h.decl_index h.kind txns actions
  check_handlers names durations state rest r.0 r.1

-- The fields of one `during:`, with those seen before.
abbrev pub check_fields : (String → Refusal) → List String → List String → Result (List String)
check_fields report [] seen = accepted seen
check_fields report (f ∷ rest) seen =
    if has_name f seen then refused (report f) else check_fields report rest (f ∷ seen)

-- Within a single `during:`, field names must be unique.
abbrev pub check_each : List During → Result (Unit {0})
check_each [] = accepted tt
check_each (d ∷ rest) = do seen ← check_fields repeated_field d.fields []; check_each rest

-- Across the durings of one state, field names must be disjoint.
abbrev pub check_across : List During → List String → Result (Unit {0})
check_across [] seen = accepted tt
check_across (d ∷ rest) seen = do
  seen' ← check_fields shared_field d.fields seen
  check_across rest seen'

abbrev pub is_nil : {A : Type 0} → List A → Bool
is_nil [] = true
is_nil (x ∷ xs) = false

abbrev pub is_empty_state : StateIr → Bool
is_empty_state s =
    (elim s.parent [ none ↦ false | some p ↦ true ])
    && is_nil s.entries
    && is_nil s.exits
    && is_nil s.handlers
    && is_nil s.children
    && is_nil s.durings

-- The body of the last loop of `validate`.
unfoldable pub validate_state : NameMap → List DurationTrigger → StateIr → Result (Unit {0})
unfolding check_handlers
validate_state names durations s = if is_empty_state s then refused (empty_state s.name) else (do
  each ← check_each s.durings
  across ← check_across s.durings []
  check_handlers names durations s.name s.handlers [] [])

abbrev pub validate_states : NameMap → List DurationTrigger → List StateIr → Result (Unit {0})
validate_states names durations [] = accepted tt
validate_states names durations (s ∷ rest) = do
  one ← validate_state names durations s
  validate_states names durations rest

-- Duplicate state names
abbrev pub check_names : List StateIr → List String → Result (Unit {0})
check_names [] seen = accepted tt
check_names (s ∷ rest) seen =
    if str_eq s.name "__Root"
    then check_names rest seen
    else if has_name s.name seen
    then refused (duplicate_state s.name)
    else check_names rest (s.name ∷ seen)

unfoldable pub validate : Ir → Result (Unit {0})
unfolding validate_state
validate ir = do
  graph ← validate_default_graph ir.states
  once ← check_names ir.states []
  validate_states (name_map ir) ir.duration_triggers ir.states

-- `terminate` is only valid at the root level.
abbrev pub check_terminate : (is_root : Bool) → Option String → Result (Unit {0})
check_terminate true t = accepted tt
check_terminate false none = accepted tt
check_terminate false (some t) = refused inner_terminate

abbrev pub check_counts : String → Items → Result (Unit {0})
check_counts state_name items =
    if ltb 1 items.default_count
    then refused (many_defaults state_name)
    else if ltb 1 items.terminate_count
    then refused many_terminates
    else accepted tt

-- `validate_body`
unfoldable mutual
  pub validate_body : StateBody → (is_root : Bool) → (state_name : String) → Result (Unit {0})
  validate_body (body items kids) is_root state_name = do
    counts ← check_counts state_name items
    inner ← check_terminate is_root items.terminate
    validate_children kids

  pub validate_children : StateDecls → Result (Unit {0})
  validate_children nil = accepted tt
  validate_children (cons name b rest) = do one ← validate_body b false name; validate_children rest

unfoldable pub validate_parse_tree : StatechartInput → Result (Unit {0})
validate_parse_tree input = validate_body input.root true input.name
