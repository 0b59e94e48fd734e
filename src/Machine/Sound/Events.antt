-- ===== src/Machine/Sound/Events.antt =====
-- Timers that fire and events that are delivered (hsmc-macros/src/codegen.rs) keep a machine sound.
use hsmc.Codegen.Walks.Tree.{chain}
use Prim.Native.String.{String}
use text.Mathlib.Text.{◌==◌ as str_eq}
use hsmc.Ir.{u16_max}
use hsmc.Journal.{timer_fired, event_received, event_delivered, event_dropped, terminate_requested}
use hsmc.Journal.Replay.{In, In→contains}
use hsmc.Timers.{min_remaining}
use hsmc.Timers.Owners.{Owners}
use hsmc.Machine.{Env, Machine, observe}
use hsmc.Machine.Actions.{event_to_id, check_terminate, position}
use hsmc.Machine.States.{arm}
use hsmc.Machine.Transitions.{dispatch_trigger, do_terminate}
use hsmc.Machine.Step.{Stepped, with_deadline, fire_timer, deliver, take_event}
use hsmc.Machine.Trace.{Goes, Goes-trans, Goes-observe, Quiet-observe}
use hsmc.Machine.Trace.States.{arm-Arms}
use hsmc.Machine.Sound.{
  Sound, IsTarget, IsSound, At, At-IsSound, At-Quiet, Reach, path_of, path_of-none,
}
use hsmc.Machine.Sound.Transitions.{do_terminate_lem}
use hsmc.Machine.Sound.Handlers.{run_handlers-Reach, dispatch_trigger-Reach}
use hsmc.Prelude.{
  ℕ, ◌+◌, ◌*◌, ◌<◌, ◌≡◌, ◌==◌, ==→≢, ◌⊎◌, ◌∙◌, sym, subst, refl, true, false, Bool-cases, inl, inr,
  Option, none, some, Option-cases, List, [], ◌∷◌, length, get_elem?, arith, if_cases, some_case,
  bind_case, ◌>>=◌, if◌then◌else◌,
}

module _ {Ev Ctx : Type 0} {env : Env Ev Ctx} {parent : ℕ → Option ℕ} {depth : ℕ → ℕ}
    (sound : Sound env parent depth) where
  -- What a machine comes to in a step, from an active path.
  abbrev pub Steps : List ℕ → Machine Ev Ctx → Option (Stepped env) → Type 0
  Steps path m r =
      (m' : Machine Ev Ctx) × (d : Option ℕ) × (r ≡ some (m', d))
      × Goes env parent path m m' (path_of env parent m')
      × IsSound env parent m'

  Reach-Ends :
      (path : List ℕ) (m m' : Machine Ev Ctx) (s : ℕ)
      → Goes env parent path m m' (chain parent s)
      → At env parent s m'
      → Goes env parent path m m' (path_of env parent m') × IsSound env parent m'
  Reach-Ends path m m' s g h =
      let same : path_of env parent m' ≡ chain parent s = rw h.here in
      (subst (Goes env parent path m m') (sym same) g, At-IsSound env parent s m' h)

  -- Firing a timer of an active state.
  pub fire_timer-Reach :
      (s state trig : ℕ) (m : Machine Ev Ctx)
      → env.has_timers ≡ true
      → At env parent s m
      → In state (chain parent s)
      → Reach env parent (chain parent s) m (fire_timer env state trig m)
  unfolding fire_timer
  fire_timer-Reach s state trig m on h active =
      let path = chain parent s in
      let fired = observe (timer_fired state trig) m in
      let g0 : Goes env parent path m fired path =
        Goes-observe env parent m (timer_fired state trig) (rw (In→contains state path active)) in
      let a0 = At-Quiet sound h (Quiet-observe m (timer_fired state trig)) in
      let (g1, c, t, o) = arm-Arms env parent (λ x. In x path) state trig fired active in
      let a1 : At env parent s (arm env state trig fired) = record {
        here = c ∙ a0.here;
        known = h.known;
        sits = record { live = t ∙ a0.sits.live; owned = o a0.sits.owned; idle = λ off. cc };
      } in
      let (m2, s2, r2, g2, a2) =
        dispatch_trigger-Reach sound s state 1 trig (arm env state trig fired) a1 in
      let (m3, s3, r3, g3, a3) = dispatch_trigger-Reach sound s state 1 trig fired a0 in
      if_cases (env.duration_repeats trig)
        (λ (r : Machine Ev Ctx). Reach env parent path m (dispatch_trigger env state 1 trig r)) _ _
        (λ e. (m2, s2, r2, Goes-trans env parent g0 (Goes-trans env parent (g1 path) g2), a2))
        (λ e. (m3, s3, r3, Goes-trans env parent g0 g3, a3))

  position_lem :
      (name : String) (i : ℕ) (xs : List String) {j : ℕ}
      → position i name xs ≡ some j
      → j < i + length xs
  position_lem name i [] e = cc
  position_lem name i (x ∷ xs) {j} e = elim (Bool-cases (str_eq x name)) [
    | inl same ↦ let at : i ≡ j = ground arith in omega (arith, at)
    | inr other ↦ omega (arith, position_lem name (i + 1) xs {j = j} (ground arith))
  ]

  -- An event that the chart names has a row in the dispatch table.
  event_to_id_lem : (ev : Ev) → (event_to_id env ev ≡ u16_max) ⊎ (event_to_id env ev < env.n_events)
  unfolding event_to_id
  event_to_id_lem ev = elim (Option-cases (position 0 (env.variant ev) env.event_variants)) [
    | inl e ↦ inl (rw (e, event_to_id) refl)
    | inr (i, e) ↦ inr (
        rw (e, event_to_id)
          (omega (arith, position_lem (env.variant ev) 0 env.event_variants e, sound.events)))
  ]

  -- An event that no handler takes is dropped.
  drop-Reach :
      (s : ℕ) (id : ℕ) (m : Machine Ev Ctx)
      → At env parent s m
      → Reach env parent (chain parent s) m (some (observe (event_dropped id) m))
  drop-Reach s id m h = (
    observe (event_dropped id) m,
    s,
    refl,
    Goes-observe env parent m (event_dropped id) refl,
    At-Quiet sound h (Quiet-observe m (event_dropped id)),
  )

  deliver-Reach :
      (s : ℕ) (ev : Ev) (m : Machine Ev Ctx)
      → At env parent s m
      → Reach env parent (chain parent s) m (deliver env ev m)
  unfolding deliver
  deliver-Reach s ev m h =
      let id = event_to_id env ev in
      let P = Reach env parent (chain parent s) m in
      if_cases (id == u16_max) P _ _ (λ e. drop-Reach s id m h)
        (λ e. some_case m.current P _ _ s h.here (
          let (hs, actions, target, at, active, ok) =
            sound.dispatches s id h.known (ground (arith, event_to_id_lem ev)) in
          some_case (get_elem? env.dispatch (s * env.n_events + id)) P _ _ (hs, actions, target) at
            (if_cases (hs == u16_max) P _ _ (λ e'. drop-Reach s id m h)
              (λ e'.
                let g0 : Goes env parent (chain parent s) m (observe (event_delivered hs id) m)
                    (chain parent s) =
                  Goes-observe env parent m (event_delivered hs id) (
                    rw (
                      In→contains hs (chain parent s)
                        (handler_active hs (chain parent s) active e'))) in
                let (m', s', r, g, a) =
                  run_handlers-Reach sound s hs actions target (some ev) 1 id 0
                    (observe (event_delivered hs id) m)
                    (At-Quiet sound h (Quiet-observe m (event_delivered hs id))) ok in
                (m', s', r, Goes-trans env parent g0 g, a)))))
    where
      handler_active :
          (x : ℕ) (path : List ℕ) → (x ≡ u16_max) ⊎ In x path → (x == u16_max) ≡ false → In x path
      handler_active x path (inl e) f = absurd (==→≢ x u16_max f e)
      handler_active x path (inr i) f = i

  pub with_deadline-Steps :
      (path : List ℕ) (m : Machine Ev Ctx) (r : Option (Machine Ev Ctx))
      → Reach env parent path m r
      → Steps path m (r >>= λ m'. some (with_deadline env m'))
  unfolding with_deadline
  with_deadline-Steps path m r (m', s', e, g, a) =
      let (g', ok) = Reach-Ends path m m' s' g a in
      bind_case r (Steps path m) _ m' e
        (m', (if env.has_timers then min_remaining m'.timers else none), refl, g', ok)

  pub take_event-Steps :
      (s : ℕ) (ev : Ev) (m : Machine Ev Ctx)
      → At env parent s m
      → Steps (chain parent s) m (take_event env ev m)
  unfolding take_event
  take_event-Steps s ev m h =
      let id = event_to_id env ev in
      let path = chain parent s in
      let received = observe (event_received id) m in
      let asked = observe (terminate_requested id) received in
      let g0 : Goes env parent path m received path =
        Goes-observe env parent m (event_received id) refl in
      let a0 = At-Quiet sound h (Quiet-observe m (event_received id)) in
      let g1 : Goes env parent path received asked path =
        Goes-observe env parent received (terminate_requested id) refl in
      let a1 = At-Quiet sound a0 (Quiet-observe received (terminate_requested id)) in
      let (m1, r1, g2, over, gone, empty, none_left) = do_terminate_lem sound s asked a1 in
      let path1 : path_of env parent m1 ≡ [] = path_of-none env parent m1 gone in
      let ok : IsSound env parent m1 = record {
        known = subst (IsTarget env.n_states) (sym gone) tt;
        ended = λ e. gone;
        owned = subst (Owners (λ x. In x (path_of env parent m1))) (sym none_left) tt;
        idle = λ off. none_left;
      } in
      let (m2, s2, r2, g3, a2) = deliver-Reach s ev received a0 in
      if_cases (check_terminate env ev) (Steps (chain parent s) m) _ _
        (λ e. bind_case (do_terminate env asked) (Steps (chain parent s) m) _ m1 r1 (
          m1,
          none,
          refl,
          Goes-trans env parent g0
              (Goes-trans env parent g1 (subst (Goes env parent path asked m1) (sym path1) g2)),
          ok,
        ))
        (λ e.
          with_deadline-Steps (chain parent s) m (deliver env ev received)
            (m2, s2, r2, Goes-trans env parent g0 g3, a2))
