-- ===== src/Examples/Lowering.antt =====
-- A parsed tree, what the passes of hsmc-macros/src/lib.rs make of it, and what the theorems ask of it.
pub mod Applied
use Prim.Native.String.{String}
use hsmc.Codegen.Walks.Tree.{IsTree}
use hsmc.Lower.Bodies.Forest.{IsForest-IsTree}
use hsmc.Codegen.Dispatch
use hsmc.Codegen.Generate
use hsmc.Codegen.Hash
use hsmc.Codegen.Tables
use hsmc.Codegen.Walks
use hsmc.Examples.Charts.{env}
use hsmc.Input.{Trigger, Handler, Items, StatechartInput, body, nil, cons}
use hsmc.Ir.{Ir, parent_of, depth_of}
use hsmc.Lower
use hsmc.Lower.Bodies
use hsmc.Lower.Bodies.Grows
use hsmc.Lower.Bodies.Interned.{Fits, tables}
use hsmc.Lower.Interning
use hsmc.Lower.Resolve
use hsmc.Machine.{Chart, Env}
use hsmc.Macro.{expand}
use hsmc.Lower.Bodies.Correct.{IsLowered, state_name, build_ir-Grows}
use hsmc.Lower.Resolve.Targets.{IsResolved, resolve_transitions-IsResolved}
use hsmc.Prelude.{
  ℕ, ◌+◌, ◌<◌, ◌≤◌, ◌≡◌, refl, false, Option, none, some, List, [], ◌∷◌, map, length, arith,
}
use hsmc.Refusal.{Result, accepted, refused, unknown_default}
use hsmc.Validate
use hsmc.Validate.Graph

abbrev on_event : String → String → ℕ → Handler
on_event variant target i = record {
  trigger = Trigger.event variant none;
  target = target;
  decl_index = i;
}

abbrev on_after : String → String → ℕ → Handler
on_after expr target i = record {
  trigger = Trigger.duration expr expr false;
  target = target;
  decl_index = i;
}

abbrev items : Option String → Option String → List Handler → List String → Items
items context default_child handlers entries = record {
  context_ty = context;
  event_ty = context;
  terminate = none;
  default_child = default_child;
  default_count = elim default_child [ none ↦ 0 | some s ↦ 1 ];
  terminate_count = 0;
  entries = entries;
  exits = [];
  handlers = handlers;
  durings = [];
  trace_enabled = false;
}

abbrev with_during : String → String → Items → Items
with_during fn_name field it = record it {
  durings = record { fn_name = fn_name; fields = field ∷ [] } ∷ [];
}

-- `Shut`, and `Open` with its child `Lit`; the defaults lead to `Shut` and to `Lit`. `Open` and `Lit` have
-- an activity each.
abbrev pub door : StatechartInput
door = record {
  name = "Door";
  root = body (items (some "Ctx") (some "Shut") (on_event "Back" "note" 0 ∷ []) []) (
      cons "Shut"
        (body (items none none (on_event "Go" "Open" 0 ∷ on_after "SLOW" "Lit" 1 ∷ []) []) nil)
        (cons "Open"
          (body (with_during "hum" "motor" (items none (some "Lit") [] ("ring" ∷ []))) (
            cons "Lit"
              (body (with_during "glow" "lamp" (items none none (on_event "Go" "Door" 0 ∷ []) []))
                nil)
              nil))
          nil));
}

abbrev pub no_bytes : String → List ℕ
no_bytes s = []

abbrev pub half_second : String → ℕ
half_second s = 500

abbrev chart_or : Chart → Result Chart → Chart
chart_or c (accepted chart) = chart
chart_or c (refused e) = c

abbrev ir_or : Ir → Result Ir → Ir
ir_or c (accepted ir) = ir
ir_or c (refused e) = c

abbrev pub no_ir : Ir
no_ir = Bodies.empty_ir "" (items none none [] []) ""

abbrev pub lowered : Ir
lowered = ir_or no_ir (Bodies.build_ir door)

pub build_ir-door : Bodies.build_ir door ≡ accepted lowered
unfolding Bodies.build_ir Bodies.lower_body Bodies.lower_items Bodies.lower_handlers
    Bodies.intern_all Bodies.classify_target Bodies.collect_state_names Interning.intern_action_unit
    Interning.intern_event Interning.intern_duration Interning.intern_action_with_params
    Lower.edit_state Lower.alloc_state
build_ir-door = refl

pub few_lowered : length lowered.states ≤ 65536
unfolding Bodies.build_ir Bodies.lower_body Bodies.lower_items Bodies.lower_handlers
    Bodies.intern_all Bodies.classify_target Bodies.collect_state_names Interning.intern_action_unit
    Interning.intern_event Interning.intern_duration Interning.intern_action_with_params
    Lower.edit_state Lower.alloc_state
few_lowered = omega arith

pub lowered-Fits : Fits (tables lowered)
unfolding Bodies.build_ir Bodies.lower_body Bodies.lower_items Bodies.lower_handlers
    Bodies.intern_all Bodies.classify_target Bodies.collect_state_names Interning.intern_action_unit
    Interning.intern_event Interning.intern_duration Interning.intern_action_with_params
    Lower.edit_state Lower.alloc_state
lowered-Fits = record {
  actions_fit = omega arith;
  events_fit = omega arith;
  durations_fit = omega arith;
}

abbrev pub settled : Ir
settled = ir_or no_ir (Resolve.resolve_transitions lowered)

abbrev pub compiled : Chart
compiled = chart_or env.chart (expand no_bytes half_second door)

abbrev pub machine : Env String ℕ
machine = record env { chart = compiled }

pub door_accepted : expand no_bytes half_second door ≡ accepted compiled
unfolding expand Generate.generate Hash.compute_chart_hash Hash.feed Hash.fed_state
    Generate.lookup_handlers Validate.validate Validate.validate_parse_tree Validate.validate_body
    Validate.validate_state Validate.check_handlers Graph.validate_default_graph Graph.chase
    Graph.report_cycle Graph.check_starts Resolve.resolve_transitions Resolve.resolve_kind
    Resolve.resolve_default Resolve.name_map Bodies.build_ir Bodies.lower_body Bodies.lower_items
    Bodies.lower_handlers Bodies.intern_all Bodies.classify_target Bodies.collect_state_names
    Interning.intern_action_unit Interning.intern_event Interning.intern_duration
    Interning.intern_action_with_params Lower.edit_state Lower.alloc_state Tables.path_table
    Tables.compute_terminate_paths Tables.compute_transition_paths Tables.merge Tables.append_pair
    Tables.for_states Tables.for_pairs Tables.rows Tables.row Tables.extend Walks.compute_one
    Walks.lca Walks.climb Walks.meet Walks.passes Walks.is_strict_ancestor Walks.up_walk
    Walks.lateral_walk Walks.terminate_walk parent_of depth_of Dispatch.compute_event_dispatch
    Dispatch.fill Dispatch.bubble Dispatch.per_state
door_accepted = refl

pub shallow : Grows.nesting door.root < 256
unfolding Grows.nesting
shallow = omega arith

pub few : 1 + Grows.state_count door.root ≤ 65536
unfolding Grows.state_count
few = omega arith

pub few_states : 1 + Grows.state_count door.root < 65536
unfolding Grows.state_count
few_states = omega arith

pub few_events : machine.n_events < 65536
unfolding expand Generate.generate Validate.validate Validate.validate_parse_tree
    Validate.validate_body Validate.validate_state Validate.check_handlers
    Graph.validate_default_graph Graph.chase Graph.report_cycle Graph.check_starts
    Resolve.resolve_transitions Resolve.resolve_kind Resolve.resolve_default Resolve.name_map
    Bodies.build_ir Bodies.lower_body Bodies.lower_items Bodies.lower_handlers Bodies.intern_all
    Bodies.classify_target Bodies.collect_state_names Interning.intern_action_unit
    Interning.intern_event Interning.intern_duration Interning.intern_action_with_params
    Lower.edit_state Lower.alloc_state Tables.path_table Tables.compute_terminate_paths
    Tables.compute_transition_paths Tables.merge Tables.append_pair Tables.for_states
    Tables.for_pairs Tables.rows Tables.row Tables.extend Walks.compute_one Walks.lca Walks.climb
    Walks.meet Walks.passes Walks.is_strict_ancestor Walks.up_walk Walks.lateral_walk
    Walks.terminate_walk parent_of depth_of Dispatch.compute_event_dispatch Dispatch.fill
    Dispatch.bubble Dispatch.per_state
few_events = omega arith

pub settled_resolved : Resolve.resolve_transitions lowered ≡ accepted settled
unfolding Resolve.resolve_transitions Resolve.resolve_kind Resolve.resolve_default Resolve.name_map
    Bodies.build_ir Bodies.lower_body Bodies.lower_items Bodies.lower_handlers Bodies.intern_all
    Bodies.classify_target Bodies.collect_state_names Interning.intern_action_unit
    Interning.intern_event Interning.intern_duration Interning.intern_action_with_params
    Lower.edit_state Lower.alloc_state
settled_resolved = refl

pub lowered-IsLowered :
    IsLowered lowered
    × (length lowered.states ≡ 1 + Grows.state_count door.root)
    × (map state_name lowered.states ≡ "__Root" ∷ "Shut" ∷ "Open" ∷ "Lit" ∷ [])
unfolding Bodies.collect_state_names
lowered-IsLowered = build_ir-Grows door shallow few build_ir-door

pub settled-IsResolved : IsResolved settled
settled-IsResolved =
    (resolve_transitions-IsResolved lowered settled lowered-IsLowered.0 settled_resolved).0

pub settled_valid : Validate.validate settled ≡ accepted tt
unfolding Validate.validate Validate.validate_state Validate.check_handlers
    Graph.validate_default_graph Graph.chase Graph.report_cycle Graph.check_starts
    Resolve.resolve_transitions Resolve.resolve_kind Resolve.resolve_default Resolve.name_map
    Bodies.build_ir Bodies.lower_body Bodies.lower_items Bodies.lower_handlers Bodies.intern_all
    Bodies.classify_target Bodies.collect_state_names Interning.intern_action_unit
    Interning.intern_event Interning.intern_duration Interning.intern_action_with_params
    Lower.edit_state Lower.alloc_state
settled_valid = refl

pub settled_generated : Generate.generate no_bytes half_second settled ≡ some compiled
unfolding expand Generate.generate Hash.compute_chart_hash Hash.feed Hash.fed_state
    Generate.lookup_handlers Validate.validate Validate.validate_parse_tree Validate.validate_body
    Validate.validate_state Validate.check_handlers Graph.validate_default_graph Graph.chase
    Graph.report_cycle Graph.check_starts Resolve.resolve_transitions Resolve.resolve_kind
    Resolve.resolve_default Resolve.name_map Bodies.build_ir Bodies.lower_body Bodies.lower_items
    Bodies.lower_handlers Bodies.intern_all Bodies.classify_target Bodies.collect_state_names
    Interning.intern_action_unit Interning.intern_event Interning.intern_duration
    Interning.intern_action_with_params Lower.edit_state Lower.alloc_state Tables.path_table
    Tables.compute_terminate_paths Tables.compute_transition_paths Tables.merge Tables.append_pair
    Tables.for_states Tables.for_pairs Tables.rows Tables.row Tables.extend Walks.compute_one
    Walks.lca Walks.climb Walks.meet Walks.passes Walks.is_strict_ancestor Walks.up_walk
    Walks.lateral_walk Walks.terminate_walk parent_of depth_of Dispatch.compute_event_dispatch
    Dispatch.fill Dispatch.bubble Dispatch.per_state
settled_generated = refl

pub settled_small : (length settled.states < 65536) × (length settled.event_variants < 65536)
unfolding Resolve.resolve_transitions Resolve.resolve_kind Resolve.resolve_default Resolve.name_map
    Bodies.build_ir Bodies.lower_body Bodies.lower_items Bodies.lower_handlers Bodies.intern_all
    Bodies.classify_target Bodies.collect_state_names Interning.intern_action_unit
    Interning.intern_event Interning.intern_duration Interning.intern_action_with_params
    Lower.edit_state Lower.alloc_state
settled_small = (omega arith, omega arith)

-- A default that names no state.
abbrev pub astray : Ir
astray = record no_ir {
  states =
      record (Lower.fresh_state 0 "__Root" none 0) { default_target_ident = some "Attic" } ∷ [];
}

pub astray_refused : Resolve.resolve_transitions astray ≡ refused (unknown_default "Attic")
unfolding Resolve.resolve_transitions Resolve.resolve_kind Resolve.resolve_default Resolve.name_map
astray_refused = refl

pub lowered-IsTree :
    IsTree (length lowered.states) (parent_of lowered.states) (depth_of lowered.states)
lowered-IsTree = IsForest-IsTree lowered.states lowered-IsLowered.0.forest
