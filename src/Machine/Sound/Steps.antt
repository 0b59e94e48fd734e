-- ===== src/Machine/Sound/Steps.antt =====
-- `step` of hsmc-macros/src/codegen.rs keeps a machine sound, and its journal says how the active path
-- moves.
use hsmc.Codegen.Walks.Tree.{chain, chain-Above, Above, Above-le}
use hsmc.Journal.{started}
use hsmc.Journal.Replay.{In}
use hsmc.Timers.{TimerEntry, decrement, pop_expired}
use hsmc.Timers.Owners.{Owners, Covered, FiredIn, decrement-Owners, pop_expired-Owners}
use hsmc.Machine.{Env, Machine, observe}
use hsmc.Machine.Transitions.{enter_path}
use hsmc.Machine.Step.{Stepped, fire_timer, poll_queue, poll_timers, step}
use hsmc.Machine.Trace.{Goes, Goes-same, Goes-trans, Goes-observe, Quiet-observe, Sits, Sits-Quiet}
use hsmc.Machine.Sound.{Sound, IsTarget, IsSound, At, path_of}
use hsmc.Machine.Sound.Transitions.{enter_path-Reach}
use hsmc.Prelude.{
  ℕ, ◌<◌, ◌≤◌, ◌≡◌, sym, ap, subst, refl, true, false, Bool-cases, inl, inr, Option, none, some,
  Option-cases, List, [], ◌∷◌, length, All, All-map, arith, if_false, if_cases, some_case,
  none_case,
}
use hsmc.Machine.Sound.Events.{Steps, fire_timer-Reach, with_deadline-Steps, take_event-Steps}

All-In : (P : ℕ → Type 0) (xs : List ℕ) {x : ℕ} → All P xs → In x xs → P x
All-In P (y ∷ ys) h (inl e) = subst P (sym e) h.0
All-In P (y ∷ ys) h (inr i) = All-In P ys h.1 i
All-In P [] h i = absurd i

module _ {Ev Ctx : Type 0} {env : Env Ev Ctx} {parent : ℕ → Option ℕ} {depth : ℕ → ℕ}
    (sound : Sound env parent depth) where
  At-queue :
      (s : ℕ) (queue' : List Ev) (m : Machine Ev Ctx)
      → At env parent s m
      → At env parent s (record m { queue = queue' })
  At-queue s queue' m h = record {
    here = h.here;
    known = h.known;
    sits = record { live = h.sits.live; owned = h.sits.owned; idle = h.sits.idle };
  }

  pop_front_shorter :
      (xs rest : List Ev) (ev : Ev)
      → env.deque.pop_front xs ≡ some (ev, rest)
      → length rest ≤ length xs
  pop_front_shorter [] rest ev e = cc (env.deque.pop_empty)
  pop_front_shorter (x ∷ xs) rest ev e =
      let same : xs ≡ rest = cc (env.deque.pop_first x xs) in omega (arith, ap length same)

  poll_queue-Steps :
      (s : ℕ) (m : Machine Ev Ctx)
      → At env parent s m
      → Steps sound (chain parent s) m (poll_queue env m)
  unfolding poll_queue
  poll_queue-Steps s m h = elim (Option-cases (env.deque.pop_front m.queue)) [
    | inl e ↦ none_case (env.deque.pop_front m.queue) (Steps sound (chain parent s) m) _ _ e (
        with_deadline-Steps sound (chain parent s) m (some m)
          (m, s, refl, Goes-same env parent (chain parent s) refl (λ q. q), h))
    | inr ((ev, rest), e) ↦
        let taken : Machine Ev Ctx = record m { queue = rest } in
        let (m', d, r, g, ok) = take_event-Steps sound s ev taken (At-queue s rest m h) in
        let shorter = pop_front_shorter m.queue rest ev e in
        let g0 : Goes env parent (chain parent s) m taken (chain parent s) =
          Goes-same env parent {m = m} {m' = taken} (chain parent s) refl
            (λ q. omega (arith, q, shorter)) in
        some_case (env.deque.pop_front m.queue) (Steps sound (chain parent s) m) _ _ (ev, rest) e
          (m', d, r, Goes-trans env parent g0 g, ok)
  ]

  -- Every state of an active path has a depth.
  chain-Covered : (s : ℕ) → s < env.n_states → (x : ℕ) → In x (chain parent s) → Covered env.depth x
  chain-Covered s h x i =
      let above = All-In (λ a. Above parent a s) (chain parent s) (chain-Above sound.tree s) i in
      sound.covers x (omega (arith, Above-le sound.tree above))

  At-timers :
      (s : ℕ) (timers' : List TimerEntry) (m : Machine Ev Ctx)
      → env.has_timers ≡ true
      → Owners (λ x. In x (chain parent s)) timers'
      → At env parent s m
      → At env parent s (record m { timers = timers' })
  At-timers s timers' m on o h = record {
    here = h.here;
    known = h.known;
    sits = record { live = h.sits.live; owned = o; idle = λ off. cc };
  }

  poll_timers-Steps :
      (s : ℕ) (m : Machine Ev Ctx)
      → env.has_timers ≡ true
      → At env parent s m
      → Steps sound (chain parent s) m (poll_timers env m)
  unfolding poll_timers
  poll_timers-Steps s m on h =
      let path = chain parent s in
      let (fired, timers', e, active, o) =
        pop_expired-Owners (λ x. In x path) env.vec env.depth m.timers
          (All-map (λ (t : TimerEntry) i. chain-Covered s h.known t.state i) m.timers h.sits.owned)
          h.sits.owned in
      popped fired timers' e active o
    where
      popped :
          (fired : Option (ℕ × ℕ)) (timers' : List TimerEntry)
          → pop_expired env.vec env.depth m.timers ≡ some (fired, timers')
          → FiredIn (λ x. In x (chain parent s)) fired
          → Owners (λ x. In x (chain parent s)) timers'
          → Steps sound (chain parent s) m (poll_timers env m)
      popped none timers' e active o =
          let left : Machine Ev Ctx = record m { timers = timers' } in
          let g0 : Goes env parent (chain parent s) m left (chain parent s) =
            Goes-same env parent {m = m} {m' = left} (chain parent s) refl (λ q. q) in
          let (m', d, r, g, ok) = poll_queue-Steps s left (At-timers s timers' m on o h) in
          some_case (pop_expired env.vec env.depth m.timers) (Steps sound (chain parent s) m) _ _
            (none, timers') e (m', d, r, Goes-trans env parent g0 g, ok)
      popped (some (state, trig)) timers' e active o =
          let left : Machine Ev Ctx = record m { timers = timers' } in
          let g0 : Goes env parent (chain parent s) m left (chain parent s) =
            Goes-same env parent {m = m} {m' = left} (chain parent s) refl (λ q. q) in
          let (m', s', r, g, a) =
            fire_timer-Reach sound s state trig left on (At-timers s timers' m on o h) active in
          some_case (pop_expired env.vec env.depth m.timers) (Steps sound (chain parent s) m) _ _
            (some (state, trig), timers') e
            (with_deadline-Steps sound (chain parent s) m (fire_timer env state trig left)
              (m', s', r, Goes-trans env parent g0 g, a))

  -- A step of a live machine that is sound.
  step-Steps :
      (elapsed s : ℕ) (m : Machine Ev Ctx)
      → At env parent s m
      → Steps sound (chain parent s) m (step env elapsed m)
  unfolding step
  step-Steps elapsed s m h =
      let ticked = record m { timers = decrement elapsed m.timers } in
      let g0 : Goes env parent (chain parent s) m ticked (chain parent s) =
        Goes-same env parent {m = m} {m' = ticked} (chain parent s) refl (λ q. q) in
      if_false m.terminated (Steps sound (chain parent s) m) _ _ h.sits.live (
        some_case m.current (Steps sound (chain parent s) m) _ _ s h.here (
          if_cases env.has_timers (Steps sound (chain parent s) m) _ _
            (λ on.
              let (m', d, r, g, ok) = poll_timers-Steps s ticked on (
                At-timers s (decrement elapsed m.timers) m on
                  (decrement-Owners (λ x. In x (chain parent s)) elapsed m.timers h.sits.owned)
                  h) in
              (m', d, r, Goes-trans env parent g0 g, ok))
            (λ off. poll_queue-Steps s m h)))

  first-Steps :
      (elapsed : ℕ) (m : Machine Ev Ctx)
      → m.current ≡ none
      → Sits env [] m
      → Steps sound [] m (step env elapsed m)
  unfolding step
  first-Steps elapsed m e h =
      let begun = observe (started env.chart_hash) m in
      let g0 : Goes env parent [] m begun [] =
        Goes-observe env parent m (started env.chart_hash) refl in
      let (m', s', r, g, a) =
        enter_path-Reach sound begun
          (Sits-Quiet env [] h (Quiet-observe m (started env.chart_hash))) in
      if_false m.terminated (Steps sound [] m) _ _ h.live (
        none_case m.current (Steps sound [] m) _ _ e (
          with_deadline-Steps sound [] m (enter_path env 0 begun)
            (m', s', r, Goes-trans env parent g0 g, a)))

  live_step :
      (elapsed : ℕ) (m : Machine Ev Ctx)
      → IsSound env parent m
      → m.terminated ≡ false
      → Steps sound (path_of env parent m) m (step env elapsed m)
  live_step elapsed m h live = elim (Option-cases m.current) [
    | inl e ↦
        let path : path_of env parent m ≡ [] = rw e in
        subst (λ p. Steps sound p m (step env elapsed m)) (sym path)
          (first-Steps elapsed m e (record {
            live = live;
            owned = subst (λ p. Owners (λ x. In x p) m.timers) path h.owned;
            idle = h.idle;
          }))
    | inr (s, e) ↦
        let path : path_of env parent m ≡ chain parent s = rw e in
        let a : At env parent s m = record {
          here = e;
          known = subst (IsTarget env.n_states) e h.known;
          sits = record {
            live = live;
            owned = subst (λ p. Owners (λ x. In x p) m.timers) path h.owned;
            idle = h.idle;
          };
        } in
        subst (λ p. Steps sound p m (step env elapsed m)) (sym path) (step-Steps elapsed s m a)
  ]

  -- `step` on a sound machine of a chart whose tables agree with its states: it returns without an
  -- access out of bounds, and the machine is sound after it. The journal has grown by events that
  -- replay from the active path before to the one after, and a queue within its capacity stays there.
  -- A terminated machine is left as it is.
  pub step-IsSound :
      (elapsed : ℕ) (m : Machine Ev Ctx)
      → IsSound env parent m
      → (m' : Machine Ev Ctx) × (deadline : Option ℕ) × (step env elapsed m ≡ some (m', deadline))
        × IsSound env parent m'
        × Goes env parent (path_of env parent m) m m' (path_of env parent m')
        × (m.terminated ≡ true → m' ≡ m)
  unfolding step
  step-IsSound elapsed m h = elim (Bool-cases m.terminated) [
    | inl over ↦ (
      m,
      none,
      if_cases m.terminated (λ (r : Option (Stepped env)). r ≡ some (m, none)) _ _ (λ e. refl)
          (λ e. cc),
      h,
      Goes-same env parent (path_of env parent m) refl (λ q. q),
      λ e. refl,
    )
    | inr live ↦ let (m', d, r, g, ok) = live_step elapsed m h live in (m', d, r, ok, g, λ e. cc)
  ]
