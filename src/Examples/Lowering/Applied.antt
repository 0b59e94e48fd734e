-- ===== src/Examples/Lowering/Applied.antt =====
-- The theorems about the passes of hsmc-macros/src/lib.rs applied to the parsed tree of the example.
use Prim.Native.String.{String}
use text.Mathlib.TextEquality.{eq_iff}
use hsmc.Examples.Tokens.{words, door_read, door-compiled}
use hsmc.Parse.Print.{print}
use hsmc.Codegen.Checks.{check_path_tables_sound, const_assertions}
use hsmc.Codegen.Checks.Correct.{TablesSound, check_path_tables_sound_lem}
use hsmc.Codegen.Checks.Passes.{generate-const_assertions}
use hsmc.Ir.{StateIr, parent_of, depth_of}
use hsmc.Lower.Bodies.Grows
use hsmc.Lower.Bodies.Interned.{tables}
use hsmc.Lower.Bodies.Means.{BodyMeans}
use hsmc.Lower.Bodies.Means.Whole.{build_ir-BodyMeans}
use hsmc.Lower.Resolve
use hsmc.Macro.Accepted.{next_of-known, valid-Ends, statechart_impl-runs}
use hsmc.Machine.{Machine, new}
use hsmc.Machine.Sound.{Sound, IsSound, path_of}
use hsmc.Machine.Sound.Runs.{Call, calls}
use hsmc.Journal.Replay.{replay}
use hsmc.Codegen.Text
use hsmc.Codegen.Text.Drawing
use hsmc.Codegen.Text.Accepted.{emit_state_chart_string-draws}
use hsmc.Codegen.Text.Marks.{AreOwn}
use hsmc.Codegen.Generate.Sound.{generate-Sound}
use hsmc.Codegen.Walks.Tree.{IsTree}
use hsmc.Lower.Bodies.Correct.{state_name, build_ir-IsTree}
use hsmc.Lower.Resolve.Correct.{Both, Settles, Bears, resolve_transitions-Both}
use hsmc.Validate.Correct.{AreDistinct, IsValid, validate-IsValid}
use hsmc.Validate.Tree.{IsSingle, validate_parse_tree_lem}
use hsmc.Validate.Graph.Chase.{Ends, Cycles}
use hsmc.Validate.Graph.Correct.{validate_default_graph_lem}
use text.Mathlib.Text.{◌==◌ as str_eq}
use hsmc.Prelude.{
  refl, arith, false, ◌≢◌, ℕ, ◌+◌, ◌<◌, ◌≤◌, ◌≡◌, ◌⊎◌, true, none, some, List, [], ◌∷◌, map, length,
  get_elem?, All,
}
use hsmc.Refusal.{accepted, unknown_target, unknown_default}
use hsmc.Lower.Resolve.Refused.{HasTransition, HasDefault, resolve_transitions-refused}
use hsmc.Validate
use hsmc.Validate.Graph
use hsmc.Examples.Lowering.{
  door, no_bytes, half_second, lowered, few_lowered, lowered-Fits, build_ir-door, settled, compiled,
  machine, shallow, few, few_states, few_events, settled_resolved, settled-IsResolved,
  settled_valid, settled_generated, settled_small, astray, astray_refused,
}

statechart_impl-runs_example :
    (states : List StateIr) × (length states ≡ 1 + Grows.state_count door.root)
    × (map state_name states ≡ "__Root" ∷ "Shut" ∷ "Open" ∷ "Lit" ∷ [])
    × ((ctx : ℕ) (cs : List (Call String))
        → (m : Machine String ℕ) × (calls machine cs (new ctx) ≡ some m)
          × IsSound machine (parent_of states) m
          × (replay (parent_of states) [] m.journal ≡ some (path_of machine (parent_of states) m))
          × (length m.queue ≤ machine.queue_capacity))
unfolding hsmc.Lower.Bodies.collect_state_names
statechart_impl-runs_example =
    statechart_impl-runs machine no_bytes half_second door shallow few_states few_events words
      (print words door) door_read door-compiled

build_ir-IsTree_example :
    IsTree (1 + Grows.state_count door.root) (parent_of lowered.states) (depth_of lowered.states)
    × (length lowered.states ≡ 1 + Grows.state_count door.root)
    × ((s : ℕ) (st : StateIr) → get_elem? lowered.states s ≡ some st → st.id ≡ s)
    × (map state_name lowered.states ≡ "__Root" ∷ "Shut" ∷ "Open" ∷ "Lit" ∷ [])
unfolding hsmc.Lower.Bodies.collect_state_names
build_ir-IsTree_example = build_ir-IsTree door lowered shallow few build_ir-door

build_ir-BodyMeans_example :
    BodyMeans (tables lowered) ("Door" ∷ "Shut" ∷ "Open" ∷ "Lit" ∷ []) lowered.states 0 door.root
unfolding hsmc.Lower.Bodies.collect_state_names
build_ir-BodyMeans_example = build_ir-BodyMeans door lowered few_lowered lowered-Fits build_ir-door

lowered_indexed : (i : ℕ) (st : StateIr) → get_elem? lowered.states i ≡ some st → st.id ≡ i
lowered_indexed = (build_ir-IsTree door lowered shallow few build_ir-door).2

resolve_transitions-Both_example :
    (record settled { states = lowered.states } ≡ lowered)
    × Both (Settles (Bears lowered)) lowered.states settled.states
resolve_transitions-Both_example =
    resolve_transitions-Both lowered settled lowered_indexed settled_resolved

validate_default_graph_lem_example :
    ((Graph.validate_default_graph settled.states ≡ accepted tt)
      × ((s : ℕ)
          → s < length settled.states
          → (k : ℕ) × Ends settled.states s k × (k < length settled.states)))
    ⊎ Cycles settled.states (Graph.validate_default_graph settled.states)
validate_default_graph_lem_example =
    validate_default_graph_lem settled.states (next_of-known settled settled-IsResolved)

validate-IsValid_example :
    (Graph.validate_default_graph settled.states ≡ accepted tt)
    × AreDistinct settled.states
    × All (IsValid (Resolve.name_map settled)) settled.states
validate-IsValid_example = validate-IsValid settled settled_valid

validate_parse_tree_lem_example :
    (Validate.validate_parse_tree door ≡ accepted tt → IsSingle true door.root)
    × (IsSingle true door.root → Validate.validate_parse_tree door ≡ accepted tt)
validate_parse_tree_lem_example = validate_parse_tree_lem door

generate-Sound_example : Sound machine (parent_of settled.states) (depth_of settled.states)
generate-Sound_example =
    generate-Sound machine no_bytes half_second settled settled-IsResolved
      (valid-Ends settled settled-IsResolved settled_valid) settled_small.0 settled_small.1
      settled_generated

resolve_transitions-refused_example :
    (n : String) × ((unknown_default "Attic" ≡ unknown_target n) × HasTransition astray.states n
      ⊎ (unknown_default "Attic" ≡ unknown_default n) × HasDefault astray.states n)
    × ((id : ℕ) → Bears astray n id → n ≡ "__Root")
resolve_transitions-refused_example =
    resolve_transitions-refused astray (unknown_default "Attic") astray_refused

check_path_tables_sound_lem_example :
    (check_path_tables_sound
          ((0, 1, 2) ∷ [])
          (0 ∷ 1 ∷ [])
          ((0, 1) ∷ [])
          (0 ∷ [])
          (some 1 ∷ none ∷ [])
          2
        ≡ true
      → TablesSound ((0, 1, 2) ∷ []) (0 ∷ 1 ∷ []) ((0, 1) ∷ []) (0 ∷ []) (some 1 ∷ none ∷ []) 2)
    × (TablesSound ((0, 1, 2) ∷ []) (0 ∷ 1 ∷ []) ((0, 1) ∷ []) (0 ∷ []) (some 1 ∷ none ∷ []) 2
        → check_path_tables_sound
            ((0, 1, 2) ∷ [])
            (0 ∷ 1 ∷ [])
            ((0, 1) ∷ [])
            (0 ∷ [])
            (some 1 ∷ none ∷ [])
            2
          ≡ true)
check_path_tables_sound_lem_example =
    check_path_tables_sound_lem ((0, 1, 2) ∷ []) (0 ∷ 1 ∷ []) ((0, 1) ∷ []) (0 ∷ [])
      (some 1 ∷ none ∷ []) 2

generate-const_assertions_example : const_assertions compiled ≡ true
generate-const_assertions_example =
    generate-const_assertions no_bytes half_second settled compiled settled-IsResolved
      settled_small.0 settled_generated

different : (a b : String) → str_eq a b ≡ false → a ≢ b
different a b h e = let same = (eq_iff a b).1 e in cc

door-AreOwn : AreOwn door
unfolding hsmc.Lower.Bodies.collect_state_names
door-AreOwn = (
  (different "Shut" "Door" refl, different "Shut" "__Root" refl),
  (
    (different "Open" "Door" refl, different "Open" "__Root" refl),
    ((different "Lit" "Door" refl, different "Lit" "__Root" refl), tt),
  ),
)

three_levels : Grows.nesting door.root ≤ 3
unfolding Grows.nesting
three_levels = omega arith

emit_state_chart_string-draws_example :
    Text.emit_state_chart_string 3 settled
    ≡ some
        "Door\n├── [default] Shut\n│   • on(Go) → Open\n│   • on(after SLOW) → Lit\n└── Open\n    • entry: ring\n    • during: hum(motor)\n    └── [default] Lit\n        • during: glow(lamp)\n        • on(Go) → Door\n"
unfolding Text.before_colon Drawing.state_lines hsmc.Lower.Bodies.collect_state_names
emit_state_chart_string-draws_example =
    emit_state_chart_string-draws door lowered settled 3 shallow few lowered-Fits door-AreOwn
      build_ir-door settled_resolved settled_valid three_levels
