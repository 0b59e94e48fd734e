-- ===== src/Lower/Bodies.antt =====
-- `build_ir`, `lower_body` and `classify_target` of hsmc-macros/src/ir.rs.
pub mod Forest
pub mod Keeps
pub mod Grows
pub mod Correct
pub mod Interned
pub mod Means
use Prim.Native.String.{String}
use text.Mathlib.Text.{◌==◌ as str_eq}
use hsmc.Input.{Trigger, Handler, Items, StateBody, StateDecls, StatechartInput, body, nil, cons}
use hsmc.Ir.{Ir, StateIr, TriggerIr, HandlerIr, HandlerKindIr, as_u16, transition, action}
use hsmc.Lower.{edit_state, alloc_state}
use hsmc.Lower.Interning.{
  intern_action_unit, intern_action_with_params, intern_event, intern_duration,
}
use hsmc.Prelude.{
  ℕ, ◌+◌, ◌%◌, ◌==◌, Bool, true, false, ◌||◌, Option, none, some, List, [], ◌∷◌, ◌++◌,
  if◌then◌else◌, length, get_elem?,
}
use hsmc.Refusal.{
  Result, accepted, refused, panicked, missing_context, every_to_state, payload_to_state, ◌>>=◌,
}

-- The set of the state names, as a list.
abbrev pub has_name : String → List String → Bool
has_name n [] = false
has_name n (x ∷ xs) = str_eq x n || has_name n xs

-- `collect_state_names`
unfoldable mutual
  pub collect_state_names : StateBody → List String
  collect_state_names (body items kids) = collect_child_names kids

  pub collect_child_names : StateDecls → List String
  collect_child_names nil = []
  collect_child_names (cons name b rest) = name ∷ collect_state_names b ++ collect_child_names rest

-- A repeating duration cannot lead to a state.
abbrev pub check_every : String → TriggerIr → Ir → Result (Unit {0})
check_every target (TriggerIr.duration tid) ir = elim (get_elem? ir.duration_triggers tid) [
  | none ↦ refused panicked
  | some d ↦ if d.repeat then refused (every_to_state target) else accepted tt
]
check_every target (TriggerIr.event id variant payload) ir = accepted tt

-- A payload cannot feed a state.
abbrev pub check_payload : TriggerIr → Result (Unit {0})
check_payload (TriggerIr.event id variant (some payload)) = refused (payload_to_state variant)
check_payload (TriggerIr.event id variant none) = accepted tt
check_payload (TriggerIr.duration id) = accepted tt

-- The interning of an action handler.
abbrev pub intern_handler : String → TriggerIr → Ir → Result (Ir × ℕ)
intern_handler target (TriggerIr.event id variant (some payload)) ir =
    intern_action_with_params target payload.fields variant payload.kind ir
intern_handler target (TriggerIr.event id variant none) ir = intern_action_unit target ir
intern_handler target (TriggerIr.duration id) ir = intern_action_unit target ir

unfoldable pub classify_target : List String → String → TriggerIr → Ir → Result (Ir × HandlerKindIr)
classify_target names target trig ir =
    if has_name target names
    then (do
      once ← check_every target trig ir
      bare ← check_payload trig
      accepted (ir, transition target none))
    else (do r ← intern_handler target trig ir; accepted (r.0, action r.1 target))

-- `for i in &body.entries { entries.push(intern_action_unit(ir, i)?); }`
unfoldable pub intern_all : List String → Ir → Result (Ir × List ℕ)
intern_all [] ir = accepted (ir, [])
intern_all (i ∷ rest) ir = do
  r ← intern_action_unit i ir
  more ← intern_all rest r.0
  accepted (more.0, r.1 ∷ more.1)

abbrev pub contains_id : ℕ → List ℕ → Bool
contains_id t [] = false
contains_id t (x ∷ xs) = x == t || contains_id t xs

-- `if !owned.contains(&id) { owned.push(id); }`
abbrev pub own_timer : ℕ → StateIr → StateIr
own_timer t st = record st {
  owned_timers =
      if contains_id t st.owned_timers then st.owned_timers else st.owned_timers ++ t ∷ [];
}

-- The `match` on the trigger of a handler.
abbrev pub lower_trigger : ℕ → Trigger → Ir → Result (Ir × TriggerIr)
lower_trigger sid (Trigger.event variant payload) ir = do
  r ← intern_event variant payload ir
  accepted (r.0, TriggerIr.event r.1 variant payload)
lower_trigger sid (Trigger.duration expr key repeat) ir = do
  let r = intern_duration expr key repeat ir
  ir' ← edit_state sid (own_timer r.1) r.0
  accepted (ir', TriggerIr.duration r.1)

unfoldable pub lower_handlers : List String → ℕ → List Handler → Ir → Result (Ir × List HandlerIr)
lower_handlers names sid [] ir = accepted (ir, [])
lower_handlers names sid (h ∷ rest) ir = do
  t ← lower_trigger sid h.trigger ir
  k ← classify_target names h.target t.1 t.0
  more ← lower_handlers names sid rest k.0
  accepted (more.0, record { trigger = t.1; kind = k.1; decl_index = h.decl_index } ∷ more.1)

-- The part of `lower_body` before the children.
unfoldable pub lower_items : List String → ℕ → Items → Ir → Result Ir
lower_items names sid items ir = do
  entries ← intern_all items.entries ir
  exits ← intern_all items.exits entries.0
  ir₁ ←
      edit_state sid (λ (st : StateIr). record st { entries = entries.1; exits = exits.1 }) exits.0
  handlers ← lower_handlers names sid items.handlers ir₁
  edit_state sid (λ (st : StateIr). record st { handlers = handlers.1; durings = items.durings })
      handlers.0

abbrev pub depth_at : ℕ → Ir → Result ℕ
depth_at sid ir = elim (get_elem? ir.states sid) [
  | none ↦ refused panicked
  | some st ↦ accepted st.depth
]

abbrev pub stash_default : Option String → StateIr → StateIr
stash_default none st = st
stash_default (some d) st = record st { default_target_ident = some d }

-- A depth is a `u8`.
unfoldable mutual
  unfolding lower_items edit_state alloc_state

  pub lower_body : List String → ℕ → StateBody → Ir → Result Ir
  lower_body names sid (body items kids) ir = do
    ir₁ ← lower_items names sid items ir
    parent_depth ← depth_at sid ir₁
    r ← lower_children names sid ((parent_depth + 1) % 256) kids ir₁
    edit_state sid
        (λ (st : StateIr). stash_default items.default_child (record st { children = r.1 })) r.0

  pub lower_children : List String → ℕ → ℕ → StateDecls → Ir → Result (Ir × List ℕ)
  lower_children names sid depth nil ir = accepted (ir, [])
  lower_children names sid depth (cons name b rest) ir = do
    let cid = as_u16 (length ir.states)
    ir₁ ← lower_body names cid b (alloc_state name (some sid) depth ir)
    more ← lower_children names sid depth rest ir₁
    accepted (more.0, cid ∷ more.1)

-- `terminate_event` is interned last.
abbrev pub intern_terminate : Option String → Ir → Result Ir
intern_terminate none ir = accepted ir
intern_terminate (some t) ir = do r ← intern_event t none ir; accepted r.0

abbrev pub items_of : StateBody → Items
items_of (body items kids) = items

-- The IR before the root is lowered; `events:` may be left out.
abbrev pub empty_ir : String → Items → String → Ir
empty_ir name items context = record {
  name = name;
  context_ty = context;
  event_ty = elim items.event_ty [ none ↦ "__NoEvents" | some t ↦ t ];
  events_omitted = elim items.event_ty [ none ↦ true | some t ↦ false ];
  terminate_event = items.terminate;
  states = [];
  actions = [];
  event_variants = [];
  duration_triggers = [];
  trace_enabled = items.trace_enabled;
}

unfoldable pub build_ir : StatechartInput → Result Ir
build_ir input = elim (items_of input.root).context_ty [
  | none ↦ refused missing_context
  | some context ↦ do
    let items = items_of input.root
    let names = input.name ∷ collect_state_names input.root
    ir ←
        lower_body names 0 input.root
          (alloc_state "__Root" none 0 (empty_ir input.name items context))
    intern_terminate items.terminate ir
]
