-- ===== src/Examples/Charts/Runs.antt =====
-- The theorems about the code of hsmc-macros/src/codegen.rs, and about the code that it generates,
-- applied to the chart and the containers of the example.
use Prim.Native.String.{String}
use hsmc.Codegen.Walks
use hsmc.Codegen.Walks.{compute_one}
use hsmc.Codegen.Walks.Tree.{Above, here, chain, Above-le, Above-cases}
use hsmc.Codegen.Walks.Correct.{Moves, compute_one_lem}
use hsmc.Codegen.Tables.Lookup.{path_table-at}
use hsmc.Codegen.Tables.Terminate.{terminate_paths-at}
use hsmc.Examples.{states, parent, depth}
use hsmc.Examples.Charts.{env, sound, states-IsTree, env-Built}
use hsmc.Ir.{Ir, unit, parent_of, depth_of}
use hsmc.Codegen.Dispatch.{Entry, entry_of, compute_event_dispatch}
use hsmc.Codegen.Dispatch.Nearest.{first_handled, dispatch_lem}
use hsmc.Timers.{TimerEntry}
use hsmc.Machine.{Machine}
use hsmc.Journal.{handler}
use hsmc.Machine.Actions.{run_actions}
use hsmc.Machine.States.{enter_state_no_descent, exit_state}
use hsmc.Machine.Transitions.{path_slices, apply_path, enter_path, run_handlers, do_terminate}
use hsmc.Machine.Step.{step}
use hsmc.Machine.Trace.{Goes, Sits}
use hsmc.Machine.Trace.States.{Enters, Leaves, enter_state_lem, exit_state_lem}
use hsmc.Machine.Trace.Paths.{apply_path_lem}
use hsmc.Machine.Sound.{IsSound, At, Reach, path_of}
use hsmc.Machine.Sound.Transitions.{enter_path-Reach, Over, do_terminate_lem}
use hsmc.Machine.Sound.Handlers.{Handled, run_handlers-Handled}
use hsmc.Machine.Sound.Steps.{step-IsSound}
use hsmc.Journal.Replay.{replay}
use hsmc.Machine.{new}
use hsmc.Machine.Sound.Runs.{calls, tick, post, calls_lem}
use hsmc.Prelude.{
  ◌≤◌, sym, subst, ℕ, ◌+◌, ◌*◌, ◌<◌, ◌≡◌, refl, true, false, inl, inr, Option, none, some, List, [],
  ◌∷◌, get_elem?, slice?, slice, length, arith,
}

-- In 1, with a timer that is due and an event in the queue.
abbrev due : TimerEntry
due = record { state = 1; trigger = 0; remaining_ns = 0 }

abbrev in_shut : Machine String ℕ
in_shut = record {
  ctx = 0;
  current = some 1;
  queue = "Go" ∷ [];
  timers = due ∷ [];
  terminated = false;
  overflow = false;
  journal = [];
}

-- In 3, below 2.
abbrev in_lit : Machine String ℕ
in_lit = record in_shut { current = some 3; timers = [] }

abbrev fresh : Machine String ℕ
fresh = record in_shut { current = none; timers = [] }

in_shut-Sits : Sits env (chain parent 1) in_shut
unfolding chain Walks.Tree.ancestry parent_of
in_shut-Sits = record { live = refl; owned = (inl refl, tt); idle = λ off. cc }

in_shut-At : At env parent 1 in_shut
in_shut-At = record { here = refl; known = omega arith; sits = in_shut-Sits }

in_lit-At : At env parent 3 in_lit
in_lit-At = record {
  here = refl;
  known = omega arith;
  sits = record { live = refl; owned = tt; idle = λ off. refl };
}

in_shut-IsSound : IsSound env parent in_shut
unfolding chain Walks.Tree.ancestry parent_of
in_shut-IsSound = record {
  known = omega arith;
  ended = λ over. cc;
  owned = (inl refl, tt);
  idle = λ off. cc;
}

step_example :
    (m' : Machine String ℕ) × (deadline : Option ℕ) × (step env 5 in_shut ≡ some (m', deadline))
    × IsSound env parent m'
    × Goes env parent (path_of env parent in_shut) in_shut m' (path_of env parent m')
    × (in_shut.terminated ≡ true → m' ≡ in_shut)
step_example = step-IsSound sound 5 in_shut in_shut-IsSound

compute_one_example :
    (exit enter : List ℕ) × (compute_one parent depth 4 1 3 ≡ some (exit, enter))
    × Moves parent 1 3 exit enter
compute_one_example = compute_one_lem states-IsTree 4 1 3 (omega arith) (omega arith) (omega arith)

moved : Moves parent 1 3 (1 ∷ []) (2 ∷ 3 ∷ [])
unfolding chain Walks.Tree.ancestry parent_of
moved = record {
  kept = 0 ∷ [];
  renewed = λ same. cc;
  leaves = refl;
  arrives = refl;
  exits_needed = λ differ. (not_above, tt);
  enters_needed = λ differ. (two, (three, tt));
}
  where
    not_above : ¬ Above parent 1 3
    not_above h = elim (Above-cases h) [
      | inl e ↦ absurd (omega (arith, e))
      | inr (p, e, r) ↦
          let same : 2 ≡ p = cc in
          elim (Above-cases (subst (Above parent 1) (sym same) r)) [
            | inl e' ↦ absurd (omega (arith, e'))
            | inr (q, e', r') ↦
                let same' : 0 ≡ q = cc in
                absurd
                  (omega (arith, Above-le states-IsTree (subst (Above parent 1) (sym same') r')))
          ]
    ]

    two : ¬ Above parent 2 1
    two h = absurd (omega (arith, Above-le states-IsTree h))

    three : ¬ Above parent 3 1
    three h = absurd (omega (arith, Above-le states-IsTree h))

apply_path_example :
    (m' : Machine String ℕ) × (apply_path env 1 3 in_shut ≡ some (m', true))
    × Goes env parent (chain parent 1) in_shut m' (chain parent 3)
    × (m'.current ≡ some 3)
    × Sits env (chain parent 3) m'
unfolding path_slices
apply_path_example =
    apply_path_lem states-IsTree env (λ off. cc) 1 3 (1 ∷ []) (2 ∷ 3 ∷ []) in_shut refl moved
      in_shut-Sits

path_table_example :
    (s m e : ℕ) × (get_elem? env-Built.table.path_range (1 * length states + 3) ≡ some (s, m, e))
    × (slice? s m env-Built.table.path_data ≡ some (slice s m env-Built.table.path_data))
    × (slice? m e env-Built.table.path_data ≡ some (slice m e env-Built.table.path_data))
    × (compute_one (parent_of states) (depth_of states) (length states) 1 3
        ≡ some (slice s m env-Built.table.path_data, slice m e env-Built.table.path_data))
    × Moves
        (parent_of states)
        1
        3
        (slice s m env-Built.table.path_data)
        (slice m e env-Built.table.path_data)
path_table_example =
    path_table-at states states-IsTree (omega arith) 1 3 env-Built.made (omega arith) (omega arith)

terminate_paths_example :
    (s e : ℕ) × (get_elem? env-Built.ends.range 3 ≡ some (s, e))
    × (slice? s e env-Built.ends.blob ≡ some (chain (parent_of states) 3))
terminate_paths_example =
    terminate_paths-at states states-IsTree (omega arith) 3 env-Built.ends_made (omega arith)

do_terminate_example : Over sound (chain parent 3) in_lit (do_terminate env in_lit)
do_terminate_example = do_terminate_lem sound 3 in_lit in_lit-At

exit_state_example : Leaves env parent (1 ∷ 0 ∷ []) in_shut (exit_state env 1 in_shut) (0 ∷ [])
exit_state_example =
    exit_state_lem env parent 1 (0 ∷ []) in_shut
      (record { live = refl; owned = (inl refl, tt); idle = λ off. cc })

enter_state_example : Enters env parent 3 (2 ∷ 0 ∷ []) fresh (enter_state_no_descent env 3 fresh)
unfolding parent_of
enter_state_example =
    enter_state_lem env parent 3 (2 ∷ 0 ∷ []) fresh (λ off. refl)
      (record { live = refl; owned = tt; idle = λ off. refl }) refl

enter_path_example : Reach env parent [] fresh (enter_path env 0 fresh)
enter_path_example =
    enter_path-Reach sound fresh (record { live = refl; owned = tt; idle = λ off. refl })

run_handlers_example :
    Handled sound 1
      (some 2)
      in_shut
      (run_actions env 1 handler (some "Go") (1 ∷ []) in_shut).0
      (run_handlers env 1 (1 ∷ []) (some 2) (some "Go") 1 0 0 in_shut)
run_handlers_example =
    run_handlers-Handled sound 1 1 (1 ∷ []) (some 2) (some "Go") 1 0 0 in_shut in_shut-At
      (omega arith)

-- The states of the example, as the lowering hands them on.
abbrev door : Ir
door = record {
  name = "Door";
  context_ty = "u32";
  event_ty = "Ev";
  events_omitted = false;
  terminate_event = some "Back";
  states = states;
  actions = env.actions;
  event_variants =
      record { name = "Go"; kind = unit; field_count = none }
      ∷ record { name = "Back"; kind = unit; field_count = none }
      ∷ [];
  duration_triggers = [];
  trace_enabled = false;
}

dispatch_example :
    (out : List Entry) × (compute_event_dispatch door ≡ some out)
    × ((s ev : ℕ)
        → s < length states
        → ev < 2
        → get_elem? out (s * 2 + ev)
          ≡ some (entry_of (first_handled states ev (chain (parent_of states) s))))
dispatch_example = dispatch_lem door states-IsTree (omega arith) (omega arith)

calls_example :
    (m : Machine String ℕ) × (calls env (tick 0 ∷ post "Go" ∷ tick 3 ∷ tick 600 ∷ []) (new 0)
      ≡ some m)
    × IsSound env parent m
    × (replay parent [] m.journal ≡ some (path_of env parent m))
    × (length m.queue ≤ env.queue_capacity)
calls_example = calls_lem sound 0 (tick 0 ∷ post "Go" ∷ tick 3 ∷ tick 600 ∷ [])
