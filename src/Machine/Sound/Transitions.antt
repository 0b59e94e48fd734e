-- ===== src/Machine/Sound/Transitions.antt =====
-- Transitions, default descent and termination of hsmc-macros/src/codegen.rs keep a machine sound.
use hsmc.Codegen.Walks.Tree.{chain, chain-root}
use hsmc.Journal.{TraceEvent, transition_fired, transition_complete, internal, terminated}
use hsmc.Journal.Replay.{In, trace_step, head?, same_option, same_option_refl}
use hsmc.Machine.{Env, Machine, observe}
use hsmc.Machine.States.{enter_state_no_descent, exit_states}
use hsmc.Machine.Transitions.{
  apply_path, is_empty, follow_defaults, run_defaults, transition, enter_path, do_terminate,
}
use hsmc.Machine.Trace.{Goes, Goes-same, Goes-trans, Goes-observe, Quiet-observe, Sits}
use hsmc.Machine.Trace.States.{enter_state_lem}
use hsmc.Machine.Trace.Paths.{exit_states_lem, apply_path_lem, chain-head}
use hsmc.Machine.Sound.{Sound, At, At-Quiet, Reach, path_slices-Moves}
use hsmc.Timers.{TimerEntry}
use hsmc.Timers.Owners.{Owners}
use hsmc.Prelude.{
  ℕ, zero, suc, ◌+◌, ◌<◌, ◌≡◌, ◌∙◌, ap, sym, subst, refl, Bool, true, not, ◌||◌, inl, inr, Option,
  none, some, Option-cases, List, [], ◌∷◌, arith, if_false, slice?, true_false_case, bind_case,
  some_case, none_case, if_cases, ◌>>=◌, if◌then◌else◌, append-nil, get_elem?,
}

module _ {Ev Ctx : Type 0} {env : Env Ev Ctx} {parent : ℕ → Option ℕ} {depth : ℕ → ℕ}
    (sound : Sound env parent depth) where
  -- `apply_path` from the current state to any state.
  apply_path-Reach :
      (s t : ℕ) (m : Machine Ev Ctx)
      → At env parent s m
      → t < env.n_states
      → (m' : Machine Ev Ctx) × (newly : Bool) × (apply_path env s t m ≡ some (m', newly))
        × Goes env parent (chain parent s) m m' (chain parent t)
        × At env parent t m'
  apply_path-Reach s t m h ht =
      let (exit, enter, found, moves) = path_slices-Moves sound s t h.known ht in
      let (m', run, g, c, sits) =
        apply_path_lem sound.tree env sound.unarmed s t exit enter m found moves h.sits in
      (m', not (is_empty enter), run, g, record { here = c; known = ht; sits = sits })

  -- An event about the state that is current.
  pub observe-Reach :
      (s : ℕ) (m : Machine Ev Ctx) (e : TraceEvent)
      → At env parent s m
      → trace_step parent (chain parent s) e ≡ some (chain parent s)
      → Goes env parent (chain parent s) m (observe e m) (chain parent s)
        × At env parent s (observe e m)
  observe-Reach s m e h ok = (Goes-observe env parent m e ok, At-Quiet sound h (Quiet-observe m e))

  pub from_here :
      (s : ℕ) (m : Machine Ev Ctx)
      → At env parent s m
      → same_option m.current (head? (chain parent s)) ≡ true
  from_here s m h = rw (h.here, chain-head sound.tree s) (same_option_refl (some s))

  -- What a machine in the state `s` comes to.
  abbrev pub From : ℕ → Machine Ev Ctx → Option (Machine Ev Ctx) → Type 0
  From s m r = Reach env parent (chain parent s) m r

  -- Default edges of the tables lead from one state to another.
  pub data Leads : ℕ → ℕ → Type 0 where
    here : {t : ℕ} → Leads t t
    on : {t c u : ℕ} → get_elem? env.default_child t ≡ some (some c) → Leads c u → Leads t u

  -- It comes to a state that the defaults of `t` lead to.
  abbrev pub ReachBy : List ℕ → ℕ → Machine Ev Ctx → Option (Machine Ev Ctx) → Type 0
  ReachBy path t m r =
      (m' : Machine Ev Ctx) × (u : ℕ) × (r ≡ some m')
      × Goes env parent path m m' (chain parent u)
      × At env parent u m'
      × Leads t u

  -- What a machine in the state `s` comes to, by the defaults of that state.
  abbrev FromBy : ℕ → Machine Ev Ctx → Option (Machine Ev Ctx) → Type 0
  FromBy s m r = ReachBy (chain parent s) s m r

  -- The default descent ends within its fuel, in a state.
  follow_defaults-ReachBy :
      (fuel s : ℕ) (m : Machine Ev Ctx)
      → sound.rank s < fuel
      → At env parent s m
      → FromBy s m (follow_defaults env fuel m)
  unfolding follow_defaults
  follow_defaults-ReachBy zero s m h a = elim h [ ]
  follow_defaults-ReachBy (suc fuel) s m h a =
      let (d, at, lower) = sound.defaults s a.known in
      some_case m.current (FromBy s m) _ _ s a.here (
        some_case (get_elem? env.default_child s) (FromBy s m) _ _ d at (elim (Option-cases d) [
          | inl e ↦
              none_case d (FromBy s m) _ _ e
                (m, s, refl, Goes-same env parent (chain parent s) refl (λ q. q), a, here)
          | inr (t, e) ↦
              let (ht, rank) = lower t e in
              let edge : get_elem? env.default_child s ≡ some (some t) = at ∙ ap (λ x. some x) e in
              let step : Leads s t = on edge here in
              let fired = observe (transition_fired m.current t internal) m in
              let (g0, a0) =
                observe-Reach s m (transition_fired m.current t internal) a
                  (rw (from_here s m a)) in
              let (m1, newly, run, g1, a1) = apply_path-Reach s t fired a0 ht in
              let (g2, a2) = observe-Reach t m1 (transition_complete m.current t) a1 refl in
              let g = Goes-trans env parent g0 (Goes-trans env parent g1 g2) in
              let (m', s', ran, g', a', led) =
                follow_defaults-ReachBy fuel t (observe (transition_complete m.current t) m1)
                  (omega arith) a2 in
              some_case d (FromBy s m) _ _ t e (
                some_case (apply_path env s t fired) (FromBy s m) _ _ (m1, newly) run
                  (true_false_case (m1.terminated || not newly) (FromBy s m) _ _
                    (λ stop. (observe (transition_complete m.current t) m1, t, refl, g, a2, step))
                    (λ go. (m', s', ran, Goes-trans env parent g g', a', on edge led))))
        ]))

  -- `run_defaults` has the fuel.
  run_defaults-ReachBy :
      (s : ℕ) (m : Machine Ev Ctx) → At env parent s m → FromBy s m (run_defaults env m)
  unfolding run_defaults
  run_defaults-ReachBy s m a =
      follow_defaults-ReachBy (env.n_states + 1) s m (omega (arith, sound.rank_le s)) a

  -- `transition` comes to a state that the defaults of its target lead to.
  pub transition-ReachBy :
      (s t : ℕ) (m : Machine Ev Ctx)
      → At env parent s m
      → t < env.n_states
      → ReachBy (chain parent s) t m (transition env t m)
  unfolding transition
  transition-ReachBy s t m a ht =
      let (m1, newly, run, g1, a1) = apply_path-Reach s t m a ht in
      let (m', s', ran, g', a', led) = run_defaults-ReachBy t m1 a1 in
      let P = ReachBy (chain parent s) t m in
      some_case m.current
        (λ (from : ℕ). P (
          apply_path env from t m >>= λ r.
          if r.0.terminated then some r.0 else if r.1 then run_defaults env r.0 else some r.0))
        t (λ cur. cur) s a.here
        (bind_case (apply_path env s t m) P _ (m1, newly) run
          (if_false m1.terminated P _ _ a1.sits.live (
            if_cases newly P _ _ (λ e. (m', s', ran, Goes-trans env parent g1 g', a', led))
              (λ e. (m1, t, refl, g1, a1, here)))))

  -- The entry of the root and the initial descent on a live machine that has no active state: it
  -- returns in a state, and the journal replays from the empty path to the path of that state.
  pub enter_path-Reach :
      (m : Machine Ev Ctx) → Sits env [] m → Reach env parent [] m (enter_path env 0 m)
  unfolding enter_path
  enter_path-Reach m h =
      let (g, c, s) =
        enter_state_lem env parent 0 [] m (λ off. sound.unarmed off 0) h sound.tree.top in
      let m1 = enter_state_no_descent env 0 m in
      let same : chain parent 0 ≡ 0 ∷ [] = chain-root sound.tree 0 sound.tree.top in
      let a1 : At env parent 0 m1 = record {
        here = c;
        known = sound.inhabited;
        sits = subst (λ p. Sits env p m1) (sym same) s;
      } in
      let (m', s', ran, g', a', led) = run_defaults-ReachBy 0 m1 a1 in
      if_false m1.terminated (Reach env parent [] m) _ _ s.live
        (m', s', ran, Goes-trans env parent (subst (Goes env parent [] m m1) (sym same) g) g', a')

  -- No timer belongs to the empty path.
  no_timers : (es : List TimerEntry) → Owners (λ x. In x []) es → es ≡ []
  no_timers [] o = refl
  no_timers (e ∷ es) o = absurd o.0

  -- What a machine on the active path `path` comes to when it ends: every state is left, no timer and
  -- no event is.
  abbrev pub Over : List ℕ → Machine Ev Ctx → Option (Machine Ev Ctx) → Type 0
  Over path m r =
      (m' : Machine Ev Ctx) × (r ≡ some m')
      × Goes env parent path m m' []
      × (m'.terminated ≡ true)
      × (m'.current ≡ none)
      × (m'.queue ≡ [])
      × (m'.timers ≡ [])

  -- `do_terminate` of a machine in a state returns a terminated machine without a current state, an
  -- event or a timer, and the journal replays from the active path to the empty one.
  pub do_terminate_lem :
      (s : ℕ) (m : Machine Ev Ctx)
      → At env parent s m
      → Over (chain parent s) m (do_terminate env m)
  unfolding do_terminate observe
  do_terminate_lem s m h =
      let (lo, hi, at, cut) = sound.terminates s h.known in
      let (g, c, sits) =
        exit_states_lem env parent (chain parent s) [] m
          (subst (λ p. Sits env p m) (sym (append-nil (chain parent s))) h.sits) in
      let out = exit_states env (chain parent s) m in
      let over : Machine Ev Ctx = record out { terminated = true; current = none; queue = [] } in
      let g1 : Goes env parent [] out over [] =
        Goes-same env parent {m = out} {m' = over} [] refl (λ q. omega arith) in
      let g2 : Goes env parent [] over (observe terminated over) [] =
        Goes-observe env parent over terminated refl in
      let P = Over (chain parent s) m in
      some_case m.current P _ _ s h.here (
        bind_case (get_elem? env.terminate_range s) P _ (lo, hi) at
          (bind_case (slice? lo hi env.terminate_data) P _ (chain parent s) cut (
            observe terminated over,
            refl,
            Goes-trans env parent
                (subst (λ p. Goes env parent p m out []) (append-nil (chain parent s)) g)
                (Goes-trans env parent g1 g2),
            refl,
            refl,
            refl,
            no_timers out.timers sits.owned,
          )))
