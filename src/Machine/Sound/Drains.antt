-- ===== src/Machine/Sound/Drains.antt =====
-- `dispatch` of the machine that hsmc-macros/src/codegen.rs generates, on a sound machine.
use hsmc.Journal.{Reply, ok, err, queue_full, already_terminated}
use hsmc.Machine.{Env, Machine}
use hsmc.Machine.Dispatch.{Drained, round, drain, dispatch}
use hsmc.Machine.Step.{step, take_overflow, has_pending_events}
use hsmc.Machine.Trace.{Goes, Goes-same, Goes-trans}
use hsmc.Machine.Trace.Actions.{push_back_bounded}
use hsmc.Machine.Sound.{Sound, IsSound, path_of}
use hsmc.Machine.Sound.Steps.{step-IsSound}
use hsmc.Prelude.{
  ℕ, zero, suc, ◌≡◌, refl, ◌⊎◌, inl, inr, true, false, if_cases, Option, none, some, Option-cases,
  some_case, none_case, bind_case, List, [], ◌∷◌,
}

module _ {Ev Ctx : Type 0} {env : Env Ev Ctx} {parent : ℕ → Option ℕ} {depth : ℕ → ℕ}
    (sound : Sound env parent depth) where
  -- What a loop of steps leads to; where it replies `Ok`, nothing is left to do.
  abbrev Drains : Machine Ev Ctx → Option (Drained env) → Type 0
  Drains m o =
      (m' : Machine Ev Ctx) × (r : Option Reply) × (o ≡ some (m', r))
      × IsSound env parent m'
      × Goes env parent (path_of env parent m) m m' (path_of env parent m')
      × (r ≡ some ok → (m'.terminated ≡ true) ⊎ (m'.queue ≡ []))

  after :
      {m m1 : Machine Ev Ctx} {o : Option (Drained env)}
      → Goes env parent (path_of env parent m) m m1 (path_of env parent m1)
      → Drains m1 o
      → Drains m o
  after g (m', r, e, h, g', done) = (m', r, e, h, Goes-trans env parent g g', done)

  round-Drains :
      (next : Machine Ev Ctx → Option (Drained env)) (m : Machine Ev Ctx)
      → ((m1 : Machine Ev Ctx) → IsSound env parent m1 → Drains m1 (next m1))
      → IsSound env parent m
      → Drains m (round env next m)
  unfolding round take_overflow
  round-Drains next m goes_on h =
      let (m1, d, ran, h1, g1, over) = step-IsSound sound 0 m h in
      let cleared : Machine Ev Ctx = record m1 { overflow = false } in
      let fine : IsSound env parent cleared = record {
        known = h1.known;
        ended = h1.ended;
        owned = h1.owned;
        idle = h1.idle;
      } in
      let g : Goes env parent (path_of env parent m) m cleared (path_of env parent cleared) =
        Goes-trans env parent g1
          (Goes-same env parent {m = m1} {m' = cleared} (path_of env parent m1) refl (λ q. q)) in
      bind_case (step env 0 m) (Drains m) _ (m1, d) ran
        (if_cases m1.overflow (Drains m) _ _
          (λ full. (cleared, some (err queue_full), refl, fine, g, λ e. cc))
          (λ room.
            if_cases m1.terminated (Drains m) _ _
              (λ ended. (cleared, some ok, refl, fine, g, λ e. inl ended))
              (λ live. after g (goes_on cleared fine))))

  drain-Drains :
      (fuel : ℕ) (m : Machine Ev Ctx) → IsSound env parent m → Drains m (drain env fuel m)
  unfolding drain has_pending_events
  drain-Drains zero m h =
      (m, none, refl, h, Goes-same env parent (path_of env parent m) refl (λ q. q), λ e. cc)
  drain-Drains (suc fuel) m h =
      if_cases (has_pending_events m) (Drains m) _ _
        (λ pending. round-Drains (drain env fuel) m (drain-Drains fuel) h)
        (λ idle. (
          m,
          some ok,
          refl,
          h,
          Goes-same env parent (path_of env parent m) refl (λ q. q),
          λ e. inr (no_events m.queue idle),
        ))
    where
      no_events : (q : List Ev) → elim q [ [] ↦ false | e ∷ es ↦ true ] ≡ false → q ≡ []
      no_events [] e = refl
      no_events (x ∷ xs) e = cc

  -- `dispatch` on a sound machine, after any number of rounds of its loop: no access is out of bounds,
  -- the machine is sound, and its journal has grown by events that replay to its active path. Where the
  -- reply is `Ok`, the queue is empty or the machine has terminated.
  pub dispatch-IsSound :
      (fuel : ℕ) (ev : Ev) (m : Machine Ev Ctx)
      → IsSound env parent m
      → (m' : Machine Ev Ctx) × (r : Option Reply) × (dispatch env fuel ev m ≡ some (m', r))
        × IsSound env parent m'
        × Goes env parent (path_of env parent m) m m' (path_of env parent m')
        × (r ≡ some ok → (m'.terminated ≡ true) ⊎ (m'.queue ≡ []))
  unfolding dispatch
  dispatch-IsSound fuel ev m h =
      let stays = Goes-same env parent {m = m} {m' = m} (path_of env parent m) refl (λ q. q) in
      if_cases m.terminated (Drains m) _ _
        (λ ended. (m, some (err already_terminated), refl, h, stays, λ e. cc))
        (λ live. elim (Option-cases (env.deque.push_back env.queue_capacity m.queue ev)) [
          | inl e ↦
              none_case (env.deque.push_back env.queue_capacity m.queue ev) (Drains m) _ _ e
                (m, some (err queue_full), refl, h, stays, λ e'. cc)
          | inr (queue', e) ↦
              let queued : Machine Ev Ctx = record m { queue = queue' } in
              let fine : IsSound env parent queued = record {
                known = h.known;
                ended = h.ended;
                owned = h.owned;
                idle = h.idle;
              } in
              let g : Goes env parent (path_of env parent m) m queued (path_of env parent queued) =
                Goes-same env parent {m = m} {m' = queued} (path_of env parent m) refl
                  (λ q. push_back_bounded env.deque env.queue_capacity m.queue ev e) in
              some_case (env.deque.push_back env.queue_capacity m.queue ev) (Drains m) _ _ queue' e
                (elim (Option-cases m.current) [
                  | inl none_yet ↦
                      none_case m.current (Drains m) _ _ none_yet
                        (after g (round-Drains (drain env fuel) queued (drain-Drains fuel) fine))
                  | inr (s, at) ↦
                      some_case m.current (Drains m) _ _ s at
                        (after g (drain-Drains fuel queued fine))
                ])
        ])
