-- ===== src/Machine/States.antt =====
-- Entering and leaving one state, from hsmc-macros/src/codegen.rs.
use hsmc.Journal.{
  TraceEvent, enter_began, entered, exit_began, exited, during_started, during_cancelled,
  timer_armed, timer_cancelled, entry, exit,
}
use hsmc.Timers.{start, cancel_state, as_u64}
use hsmc.Machine.{Env, Machine, observe}
use hsmc.Machine.Actions.{run_actions}
use hsmc.Prelude.{ℕ, List, suc, ◌∷◌, none, if◌then◌else◌, Bool, ◌+◌, some, false, [], true, zero}

-- `while di < dn { observe; di += 1; }`, by the rounds left
unfoldable pub observe_durings :
    {Ev Ctx : Type 0} → (ℕ → TraceEvent) → ℕ → ℕ → Machine Ev Ctx → Machine Ev Ctx
observe_durings event zero di m = m
observe_durings event (suc left) di m = observe_durings event left (di + 1) (observe (event di) m)

unfoldable pub observe_each :
    {Ev Ctx : Type 0} → (ℕ → TraceEvent) → List ℕ → Machine Ev Ctx → Machine Ev Ctx
observe_each event [] m = m
observe_each event (tid ∷ rest) m = observe_each event rest (observe (event tid) m)

module _ {Ev Ctx : Type 0} (env : Env Ev Ctx) where
  unfoldable pub arm : ℕ → ℕ → Machine Ev Ctx → Machine Ev Ctx
  arm sid tid m =
      let d = env.duration_for tid in
      observe (timer_armed sid tid (as_u64 d))
        (record m { timers = start env.vec env.max_timers sid tid d m.timers })

  unfoldable pub arm_each : ℕ → List ℕ → Machine Ev Ctx → Machine Ev Ctx
  arm_each sid [] m = m
  arm_each sid (tid ∷ rest) m = arm_each sid rest (arm sid tid m)

  unfoldable pub enter_state_no_descent : ℕ → Machine Ev Ctx → Machine Ev Ctx
  enter_state_no_descent sid m =
      let (m', early) =
        run_actions env sid entry none (env.entries_of sid) (observe (enter_began sid) m) in
      if early
      then m'
      else (let armed = arm_each sid (env.owned_timers sid) m' in
          let here = record armed { current = some sid } in
          observe (entered sid)
            (observe_durings (during_started sid) (env.durings_count sid) 0 here))

  -- The call of `cancel_state` is emitted for charts with duration triggers only.
  unfoldable pub cancel_timers : ℕ → Machine Ev Ctx → Machine Ev Ctx
  cancel_timers sid m =
      if env.has_timers then record m { timers = cancel_state env.vec sid m.timers } else m

  unfoldable pub exit_state : ℕ → Machine Ev Ctx → Machine Ev Ctx
  exit_state sid m =
      let began = observe (exit_began sid) m in
      let stopped = observe_durings (during_cancelled sid) (env.durings_count sid) 0 began in
      let cleared =
        cancel_timers sid (observe_each (timer_cancelled sid) (env.owned_timers sid) stopped) in
      let (m', early) = run_actions env sid exit none (env.exits_of sid) cleared in
      if early then m' else observe (exited sid) m'

  -- `for &sid in exit_path { self.exit_state(sid); }`
  unfoldable pub exit_states : List ℕ → Machine Ev Ctx → Machine Ev Ctx
  exit_states [] m = m
  exit_states (sid ∷ rest) m = exit_states rest (exit_state sid m)

  -- `for &sid in enter_path { self.enter_state_no_descent(sid); if self.terminated { return .. } }`
  unfoldable pub enter_states : List ℕ → Machine Ev Ctx → Machine Ev Ctx × Bool
  enter_states [] m = (m, false)
  enter_states (sid ∷ rest) m =
      let m' = enter_state_no_descent sid m in
      let next = enter_states rest m' in if m'.terminated then (m', true) else next
