-- ===== src/Machine/Trace/Actions.antt =====
-- User actions (hsmc-macros/src/codegen.rs) only emit: they leave the active path, the timers and the
-- current state alone.
use hsmc.Heapless.{Deque}
use hsmc.Journal.Replay.{trace_step}
use hsmc.Prelude.{
  ◌∷◌, [], ltb, ℕ, List, Option, Bool-cases, ◌≡◌, some, inl, length, inr, Option-cases, ◌≤◌, ◌++◌,
  arith, get_elem?, false, refl, length-append, ◌∙◌, ap, ◌<◌, if_cases, Bool, if_false,
}
use hsmc.Journal.{TraceEvent, ActionKind, Reply, ok, err, emit_queued, emit_failed, action_invoked}
use hsmc.Machine.{Env, Machine, Program, done, emit, observe}
use hsmc.Machine.Actions.{
  event_to_id, proxy_push, emit_event, run_program, call, run_action, run_actions,
}
use hsmc.Machine.Trace.{
  Goes, Goes-same, Goes-trans, Goes-observe, Quiet, Quiet-trans, Quiet-observe,
}

-- A push that succeeds keeps to the capacity.
pub push_back_bounded :
    {E : Type 0} (d : Deque E) (room : ℕ) (xs : List E) (e : E) {ys : List E}
    → d.push_back room xs e ≡ some ys
    → length ys ≤ room
push_back_bounded d room xs e {ys} h = elim (Bool-cases (ltb (length xs) room)) [
  | inl free ↦
      let fits : length xs < room = ground arith in
      let same : xs ++ e ∷ [] ≡ ys = cc (d.push_room room xs e fits) in
      omega (arith, length-append xs (e ∷ []), ap length same)
  | inr full ↦ cc (d.push_full room xs e (ground arith))
]

module _ {Ev Ctx : Type 0} (env : Env Ev Ctx) (parent : ℕ → Option ℕ) where
  -- What a piece of user code does, whatever the active path is.
  abbrev pub Acts : Machine Ev Ctx → Machine Ev Ctx → Type 0
  Acts m m' = ((p : List ℕ) → Goes env parent p m m' p) × Quiet m m'

  pub Acts-refl : (m : Machine Ev Ctx) → Acts m m
  Acts-refl m = (
    λ p. Goes-same env parent p refl (λ q. q),
    record { current = refl; timers = refl; terminated = refl },
  )

  pub Acts-trans : {a b c : Machine Ev Ctx} → Acts a b → Acts b c → Acts a c
  Acts-trans h k = (λ p. Goes-trans env parent (h.0 p) (k.0 p), Quiet-trans h.1 k.1)

  proxy_push-bounded :
      (m : Machine Ev Ctx) (ev : Ev)
      → length m.queue ≤ env.queue_capacity
      → length (proxy_push env m ev).0.queue ≤ env.queue_capacity
  unfolding proxy_push
  proxy_push-bounded m ev q =
      elim (Option-cases (env.deque.push_back env.queue_capacity m.queue ev)) [
        | inl full ↦ ground arith
        | inr (queue', room) ↦
            ground (arith, push_back_bounded env.deque env.queue_capacity m.queue ev room)
      ]

  proxy_push-Acts : (m : Machine Ev Ctx) (ev : Ev) → Acts m (proxy_push env m ev).0
  unfolding proxy_push
  proxy_push-Acts m ev = (
    λ p. Goes-same env parent p (ground arith) (proxy_push-bounded m ev),
    record { current = ground arith; timers = ground arith; terminated = ground arith },
  )

  -- An event that leaves every active path alone.
  observe-Acts :
      (m : Machine Ev Ctx) (e : TraceEvent)
      → ((p : List ℕ) → trace_step parent p e ≡ some p)
      → Acts m (observe e m)
  observe-Acts m e h = (λ p. Goes-observe env parent m e (h p), Quiet-observe m e)

  replied :
      (m m' : Machine Ev Ctx) (ev : Ev) (reply : Reply)
      → Acts m m'
      → Acts m
          (elim reply as (λ _. Machine Ev Ctx × Reply) [
            | ok ↦ (observe (emit_queued (event_to_id env ev)) m', ok)
            | err e ↦ (observe (emit_failed (event_to_id env ev)) m', err e)
          ]).0
  replied m m' ev ok h = Acts-trans h (observe-Acts m' _ (λ p. refl))
  replied m m' ev (err e) h = Acts-trans h (observe-Acts m' _ (λ p. refl))

  emit_event-Acts : (m : Machine Ev Ctx) (ev : Ev) → Acts m (emit_event env m ev).0
  unfolding emit_event
  emit_event-Acts m ev =
      if_cases m.terminated (λ (r : Machine Ev Ctx × Reply). Acts m r.0) _ _ (λ e. Acts-refl m)
        λ e. replied m (proxy_push env m ev).0 ev (proxy_push env m ev).1 (proxy_push-Acts m ev)

  run_program-Acts : (c : Program Ev Ctx) (m : Machine Ev Ctx) → Acts m (run_program env c m)
  unfolding run_program
  run_program-Acts (done ctx) m = (
    λ p. Goes-same env parent p refl (λ q. q),
    record { current = refl; timers = refl; terminated = refl },
  )
  run_program-Acts (emit ev rest) m =
      Acts-trans (emit_event-Acts m ev)
        (run_program-Acts (rest (emit_event env m ev).1) (emit_event env m ev).0)

  run_action-Acts :
      (aid : ℕ) (event : Option Ev) (m : Machine Ev Ctx) → Acts m (run_action env aid event m)
  unfolding run_action
  run_action-Acts aid event m = elim (Option-cases (get_elem? env.actions aid)) [
    | inl e ↦ rw (e, run_action) (Acts-refl m)
    | inr (a, e) ↦ rw (e, run_action) (run_program-Acts (call env a event m.ctx) m)
  ]

  -- On a live machine the loop over the actions runs to its end. It leaves the current state, the
  -- timers and the active path alone, and the queue keeps to its capacity.
  pub run_actions-Acts :
      (sid : ℕ) (kind : ActionKind) (event : Option Ev) (aids : List ℕ) (m : Machine Ev Ctx)
      → m.terminated ≡ false
      → ((run_actions env sid kind event aids m).1 ≡ false)
        × Acts m (run_actions env sid kind event aids m).0
  unfolding run_actions
  run_actions-Acts sid kind event [] m h = (refl, Acts-refl m)
  run_actions-Acts sid kind event (aid ∷ rest) m h =
      let seen = observe (action_invoked sid aid kind) m in
      let once : Acts m (run_action env aid event seen) =
        Acts-trans (observe-Acts m (action_invoked sid aid kind) (λ p. refl))
          (run_action-Acts aid event seen) in
      let live : (run_action env aid event seen).terminated ≡ false = once.1.terminated ∙ h in
      let (ends, acts) =
        run_actions-Acts sid kind event rest (run_action env aid event seen) live in
      if_false (run_action env aid event seen).terminated
        (λ (r : Machine Ev Ctx × Bool). (r.1 ≡ false) × Acts m r.0) _ _ live
        (ends, Acts-trans once acts)
