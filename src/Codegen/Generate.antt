-- ===== src/Codegen/Generate.antt =====
-- `generate` of hsmc-macros/src/codegen.rs: the constants and lookups that it emits for a chart. The text around them is
-- left out. The value of a user's
-- duration expression and the bytes of a text are parameters.
pub mod Groups
pub mod Sound
use Prim.Native.Nat.{max}
use Prim.Native.String.{String}
use hsmc.Codegen.Dispatch.{Slot, Entry, add_kind, sort_handlers, compute_event_dispatch}
use hsmc.Codegen.Hash.{compute_chart_hash}
use hsmc.Codegen.Tables.{PathTable, Blob, path_table, compute_terminate_paths}
use hsmc.Ir.{Ir, StateIr, HandlerIr, TriggerIr, DurationTrigger, EventVariantIr, as_u16}
use hsmc.Machine.{Chart}
use hsmc.Prelude.{
  ℕ, ◌==◌, ◌&&◌, ◌>>=◌, Bool, true, false, not, Option, none, some, List, [], ◌∷◌, map, length,
  get_elem?, if◌then◌else◌,
}

-- `(0u8, id)` of an event, `(1u8, id)` of a duration
abbrev pub group_key : TriggerIr → ℕ × ℕ
group_key (TriggerIr.event id variant payload) = (0, id)
group_key (TriggerIr.duration id) = (1, id)

-- `BTreeMap<(u8, u16), Group>`
abbrev pub Groups : Type 0
Groups = List ((ℕ × ℕ) × Slot)

abbrev pub same_pair : ℕ × ℕ → ℕ × ℕ → Bool
same_pair (a, b) (c, d) = a == c && b == d

abbrev pub get_group : ℕ × ℕ → Groups → Option Slot
get_group k [] = none
get_group k ((k', v) ∷ rest) = if same_pair k k' then some v else get_group k rest

-- A change of `groups.entry(key).or_default()`.
abbrev pub update_group : ℕ × ℕ → (Slot → Slot) → Groups → Groups
update_group k f [] = (k, f ([], none)) ∷ []
update_group k f ((k', v) ∷ rest) =
    if same_pair k k' then (k', f v) ∷ rest else (k', v) ∷ update_group k f rest

-- `for h in handlers { .. }` of `state_handler_arms`
abbrev pub group_handlers : List HandlerIr → Groups → Groups
group_handlers [] acc = acc
group_handlers (h ∷ hs) acc =
    group_handlers hs (update_group (group_key h.trigger) (add_kind h.kind) acc)

-- The arm of a `match` on a state id: the first state that has it.
abbrev pub state_arm : ℕ → List StateIr → Option StateIr
state_arm id [] = none
state_arm id (s ∷ rest) = let later = state_arm id rest in if s.id == id then some s else later

-- `__handler_lookup`
unfoldable pub lookup_handlers : List StateIr → ℕ → ℕ → ℕ → Option Slot
lookup_handlers states id kind trigger = elim (state_arm id states) [
  | none ↦ none
  | some s ↦ get_group (kind, trigger) (group_handlers (sort_handlers s.handlers) [])
]

-- The ids of a state's arm; `_ => &[]` otherwise.
abbrev pub arm_ids : (StateIr → List ℕ) → List StateIr → ℕ → List ℕ
arm_ids field states id = elim (state_arm id states) [ none ↦ [] | some s ↦ field s ]

abbrev pub arm_durings : List StateIr → ℕ → ℕ
arm_durings states id = elim (state_arm id states) [ none ↦ 0 | some s ↦ as_u16 (length s.durings) ]

-- `__duration_for` and `__duration_repeats`: the arms count from 0.
abbrev pub arm_duration : (String → ℕ) → List DurationTrigger → ℕ → ℕ
arm_duration value durations tid = elim (get_elem? durations tid) [
  | none ↦ 0
  | some d ↦ value d.expr
]

abbrev pub arm_repeats : List DurationTrigger → ℕ → Bool
arm_repeats durations tid = elim (get_elem? durations tid) [ none ↦ false | some d ↦ d.repeat ]

abbrev pub is_empty : {A : Type 0} → List A → Bool
is_empty [] = true
is_empty (x ∷ xs) = false

module _ (as_bytes : String → List ℕ) (value : String → ℕ) where
  -- The constants of a chart, with its tables.
  abbrev pub lay_out : Ir → PathTable → Blob → List Entry → Chart
  lay_out ir paths ends dispatch = record {
    chart_hash = compute_chart_hash as_bytes ir;
    n_states = length ir.states;
    n_events = length ir.event_variants;
    depth = map (λ (s : StateIr). s.depth) ir.states;
    default_child = map (λ (s : StateIr). s.default_child) ir.states;
    path_data = paths.path_data;
    path_range = paths.path_range;
    terminate_data = ends.blob;
    terminate_range = ends.range;
    dispatch = dispatch;
    handler_lookup = lookup_handlers ir.states;
    entries_of = arm_ids (λ (s : StateIr). s.entries) ir.states;
    exits_of = arm_ids (λ (s : StateIr). s.exits) ir.states;
    owned_timers = arm_ids (λ (s : StateIr). s.owned_timers) ir.states;
    durings_count = arm_durings ir.states;
    duration_for = arm_duration value ir.duration_triggers;
    duration_repeats = arm_repeats ir.duration_triggers;
    has_timers = not (is_empty ir.duration_triggers);
    max_timers = max (length ir.duration_triggers) 1;
    actions = ir.actions;
    event_variants = map (λ (v : EventVariantIr). v.name) ir.event_variants;
    terminate_event = ir.terminate_event;
  }

  -- `none` is a panic of the macro.
  unfoldable pub generate : Ir → Option Chart
  generate ir = do
    paths ← path_table ir.states
    ends ← compute_terminate_paths ir.states
    dispatch ← compute_event_dispatch ir
    some (lay_out ir paths ends dispatch)
