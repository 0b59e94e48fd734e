-- ===== src/Machine/Transitions.antt =====
-- Transitions, from hsmc-macros/src/codegen.rs. `none` is undefined behaviour, an index or a slice out
-- of the bounds of a table that the code reads unchecked; and a default chain that outlasts its fuel.
use hsmc.Journal.{
  transition_fired, transition_complete, internal, event, timer, terminated, handler,
}
use hsmc.Machine.{Env, Machine, observe}
use hsmc.Machine.Actions.{run_actions}
use hsmc.Machine.States.{exit_states, enter_states, enter_state_no_descent}
use hsmc.Prelude.{
  List, ℕ, Option, Bool, none, ◌+◌, if◌then◌else◌, true, ◌>>=◌, ◌∷◌, get_elem?, not, some, suc,
  ◌==◌, [], false, ◌*◌, ◌||◌, slice?, zero,
}

abbrev pub is_empty {ℓ} : {A : Type ℓ} → List A → Bool
is_empty [] = true
is_empty (x ∷ xs) = false

module _ {Ev Ctx : Type 0} (env : Env Ev Ctx) where
  -- The two slices that `apply_path` reads.
  unfoldable pub path_slices : ℕ → ℕ → Option (List ℕ × List ℕ)
  path_slices from target = do
    r ← get_elem? env.path_range (from * env.n_states + target)
    exit ← slice? r.0 r.1 env.path_data
    enter ← slice? r.1 r.2 env.path_data
    some (exit, enter)

  unfoldable pub walk_path : List ℕ → List ℕ → ℕ → Machine Ev Ctx → Machine Ev Ctx × Bool
  walk_path exit enter target m =
      let (m', early) = enter_states env enter (exit_states env exit m) in
      if early
      then (m', not (is_empty enter))
      else if is_empty enter
      then (record m' { current = some target }, false)
      else (m', true)

  unfoldable pub apply_path : ℕ → ℕ → Machine Ev Ctx → Option (Machine Ev Ctx × Bool)
  apply_path from target m = do
    paths ← path_slices from target
    some (walk_path paths.0 paths.1 target m)

  unfoldable pub follow_defaults : ℕ → Machine Ev Ctx → Option (Machine Ev Ctx)
  follow_defaults zero m = none
  follow_defaults (suc fuel) m = elim m.current [
    | none ↦ some m
    | some cur ↦ elim (get_elem? env.default_child cur) [
      | none ↦ none
      | some none ↦ some m
      | some (some target) ↦
          elim (apply_path cur target (observe (transition_fired m.current target internal) m)) [
            | none ↦ none
            | some (m', newly) ↦ elim (m'.terminated || not newly) [
              | true ↦ some (observe (transition_complete m.current target) m')
              | false ↦ follow_defaults fuel (observe (transition_complete m.current target) m')
            ]
          ]
    ]
  ]

  -- Each round of the default chain follows one edge of an acyclic graph on the states.
  unfoldable pub run_defaults : Machine Ev Ctx → Option (Machine Ev Ctx)
  run_defaults m = follow_defaults (env.n_states + 1) m

  unfoldable pub transition : ℕ → Machine Ev Ctx → Option (Machine Ev Ctx)
  transition target m = do
    let from : ℕ = elim m.current [ none ↦ target | some cur ↦ cur ]
    r ← apply_path from target m
    if r.0.terminated then some r.0 else if r.1 then run_defaults r.0 else some r.0

  unfoldable pub enter_path : ℕ → Machine Ev Ctx → Option (Machine Ev Ctx)
  enter_path root m =
      let m' = enter_state_no_descent env root m in
      if m'.terminated then some m' else run_defaults m'

  -- The observation of `run_handlers`, by its reason kind: 1 for an event, 2 for a timer.
  unfoldable pub observe_fired : ℕ → ℕ → ℕ → ℕ → Machine Ev Ctx → Machine Ev Ctx
  observe_fired kind a b target m =
      if kind == 1
      then observe (transition_fired m.current target (event a)) m
      else if kind == 2
      then observe (transition_fired m.current target (timer a b)) m
      else m

  unfoldable pub run_handlers :
      ℕ → List ℕ → Option ℕ → Option Ev → ℕ → ℕ → ℕ → Machine Ev Ctx → Option (Machine Ev Ctx)
  run_handlers source actions target ev kind a b m =
      let (m', early) = run_actions env source handler ev actions m in
      if early then some m' else elim target [
        | none ↦ some m'
        | some t ↦ do
          let fired = observe_fired kind a b t m'
          m'' ← transition t fired
          some (observe (transition_complete fired.current t) m'')
      ]

  unfoldable pub dispatch_trigger : ℕ → ℕ → ℕ → Machine Ev Ctx → Option (Machine Ev Ctx)
  dispatch_trigger state kind trig m = elim (env.handler_lookup state kind trig) [
    | none ↦ some m
    | some (actions, target) ↦ run_handlers state actions target none 2 state trig m
  ]

  unfoldable pub do_terminate : Machine Ev Ctx → Option (Machine Ev Ctx)
  do_terminate m = do
    let finish = λ (m' : Machine Ev Ctx).
        observe terminated (record m' { terminated = true; current = none; queue = [] })
    elim m.current [
      | none ↦ some (finish m)
      | some cur ↦ do
        r ← get_elem? env.terminate_range cur
        path ← slice? r.0 r.1 env.terminate_data
        some (finish (exit_states env path m))
    ]
