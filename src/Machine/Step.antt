-- ===== src/Machine/Step.antt =====
-- `step` and the calls of the machine's owner, from hsmc-macros/src/codegen.rs.
use hsmc.Ir.{u16_max}
use hsmc.Journal.{
  Reply, ok, err, queue_full, already_terminated, started, timer_fired, event_received,
  event_delivered, event_dropped, terminate_requested,
}
use hsmc.Timers.{decrement, pop_expired, min_remaining}
use hsmc.Machine.{Env, Machine, observe}
use hsmc.Machine.Actions.{event_to_id, check_terminate}
use hsmc.Machine.States.{arm}
use hsmc.Machine.Transitions.{enter_path, run_handlers, dispatch_trigger, do_terminate}
use hsmc.Prelude.{
  [], ◌∷◌, Option, ℕ, Bool, if◌then◌else◌, false, none, ◌==◌, some, ◌>>=◌, get_elem?, ◌*◌, ◌+◌,
  true,
}

module _ {Ev Ctx : Type 0} (env : Env Ev Ctx) where
  -- What `step` returns: the machine, and the time to the next timer.
  abbrev pub Stepped : Type 0
  Stepped = Machine Ev Ctx × Option ℕ

  unfoldable pub with_deadline : Machine Ev Ctx → Stepped
  with_deadline m = (m, if env.has_timers then min_remaining m.timers else none)

  -- The block after a timer was popped.
  unfoldable pub fire_timer : ℕ → ℕ → Machine Ev Ctx → Option (Machine Ev Ctx)
  fire_timer state trig m =
      let fired = observe (timer_fired state trig) m in
      let rearmed = if env.duration_repeats trig then arm env state trig fired else fired in
      dispatch_trigger env state 1 trig rearmed

  -- The lookup in `__DISPATCH` and what follows it.
  unfoldable pub deliver : Ev → Machine Ev Ctx → Option (Machine Ev Ctx)
  deliver ev m =
      let ev_id = event_to_id env ev in
      if ev_id == u16_max then some (observe (event_dropped ev_id) m) else elim m.current [
        | none ↦ some (observe (event_dropped ev_id) m)
        | some cur ↦ elim (get_elem? env.dispatch (cur * env.n_events + ev_id)) [
          | none ↦ none
          | some (handler_state, actions, target) ↦
              if handler_state == u16_max
              then some (observe (event_dropped ev_id) m)
              else run_handlers env handler_state actions target (some ev) 1 ev_id 0
                  (observe (event_delivered handler_state ev_id) m)
        ]
      ]

  -- The block that handles one queued event.
  unfoldable pub take_event : Ev → Machine Ev Ctx → Option Stepped
  take_event ev m =
      let received = observe (event_received (event_to_id env ev)) m in
      if check_terminate env ev
      then (do
        m' ← do_terminate env (observe (terminate_requested (event_to_id env ev)) received)
        some (m', none))
      else (do m' ← deliver ev received; some (with_deadline m'))

  unfoldable pub poll_queue : Machine Ev Ctx → Option Stepped
  poll_queue m = elim (env.deque.pop_front m.queue) [
    | none ↦ some (with_deadline m)
    | some (ev, rest) ↦ take_event ev (record m { queue = rest })
  ]

  -- A step of a started machine of a chart with timers.
  unfoldable pub poll_timers : Machine Ev Ctx → Option Stepped
  poll_timers m = elim (pop_expired env.vec env.depth m.timers) [
    | none ↦ none
    | some (none, timers') ↦ poll_queue (record m { timers = timers' })
    | some (some (state, trig), timers') ↦ do
      m' ← fire_timer state trig (record m { timers = timers' })
      some (with_deadline m')
  ]

  unfoldable pub step : ℕ → Machine Ev Ctx → Option Stepped
  step elapsed m = if m.terminated then some (m, none) else elim m.current [
    | none ↦ do m' ← enter_path env 0 (observe (started env.chart_hash) m); some (with_deadline m')
    | some cur ↦
        if env.has_timers
        then poll_timers (record m { timers = decrement elapsed m.timers })
        else poll_queue m
  ]

  unfoldable pub send : Ev → Machine Ev Ctx → Machine Ev Ctx × Reply
  send ev m =
      if m.terminated
      then (m, err already_terminated)
      else elim (env.deque.push_back env.queue_capacity m.queue ev) [
        | some queue' ↦ (record m { queue = queue' }, ok)
        | none ↦ (m, err queue_full)
      ]

unfoldable pub take_overflow : {Ev Ctx : Type 0} → Machine Ev Ctx → Machine Ev Ctx × Bool
take_overflow m = (record m { overflow = false }, m.overflow)

unfoldable pub has_pending_events : {Ev Ctx : Type 0} → Machine Ev Ctx → Bool
has_pending_events m = elim m.queue [ [] ↦ false | e ∷ es ↦ true ]
