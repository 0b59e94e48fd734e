-- ===== src/Machine/Sound/Handlers.antt =====
-- The handlers of hsmc-macros/src/codegen.rs keep a machine sound.
use hsmc.Codegen.Walks.Tree.{chain}
use hsmc.Journal.{transition_complete, handler}
use hsmc.Machine.{Env, Machine, observe}
use hsmc.Machine.Actions.{run_actions}
use hsmc.Machine.Transitions.{transition, observe_fired, run_handlers, dispatch_trigger}
use hsmc.Machine.Trace.{Goes, Goes-same, Goes-trans}
use hsmc.Machine.Trace.Actions.{run_actions-Acts}
use hsmc.Machine.Sound.{Sound, IsTarget, At, At-Quiet}
use hsmc.Prelude.{
  ℕ, ◌≡◌, refl, inl, inr, Option, none, some, Option-cases, List, if_false, bind_case, some_case,
  none_case, if_cases, ◌==◌,
}
use hsmc.Machine.Sound.Transitions.{From, ReachBy, observe-Reach, from_here, transition-ReachBy}

module _ {Ev Ctx : Type 0} {env : Env Ev Ctx} {parent : ℕ → Option ℕ} {depth : ℕ → ℕ}
    (sound : Sound env parent depth) where
  observe_fired-Reach :
      (kind a b t s : ℕ) (m : Machine Ev Ctx)
      → At env parent s m
      → Goes env parent (chain parent s) m (observe_fired env kind a b t m) (chain parent s)
        × At env parent s (observe_fired env kind a b t m)
  unfolding observe_fired
  observe_fired-Reach kind a b t s m h =
      let P = λ (r : Machine Ev Ctx).
        Goes env parent (chain parent s) m r (chain parent s) × At env parent s r in
      if_cases (kind == 1) P _ _ (λ e. observe-Reach sound s m _ h (rw (from_here sound s m h)))
        (λ e.
          if_cases (kind == 2) P _ _
            (λ e'. observe-Reach sound s m _ h (rw (from_here sound s m h)))
            (λ e'. (Goes-same env parent (chain parent s) refl (λ q. q), h)))

  -- What `run_handlers` of a machine in the state `s` comes to after its actions, which lead to `acted`.
  abbrev pub Handled :
      ℕ → Option ℕ → Machine Ev Ctx → Machine Ev Ctx → Option (Machine Ev Ctx) → Type 0
  Handled s none m acted r =
      (r ≡ some acted)
      × Goes env parent (chain parent s) m acted (chain parent s)
      × At env parent s acted
  Handled s (some t) m acted r =
      Goes env parent (chain parent s) m acted (chain parent s)
      × At env parent s acted
      × ReachBy sound (chain parent s) t acted r

  -- `run_handlers` of a machine in a state, with or without a target that the chart has, runs its actions,
  -- which leave the machine in that state. Without a target that is all. With one it returns in a state
  -- that default edges lead to from the target, on whose active path the machine sits. The journal
  -- replays to the active path after the actions and in the end.
  pub run_handlers-Handled :
      (s source : ℕ) (actions : List ℕ) (target : Option ℕ) (ev : Option Ev) (kind a b : ℕ)
      (m : Machine Ev Ctx)
      → At env parent s m
      → IsTarget env.n_states target
      → Handled s target m
          (run_actions env source handler ev actions m).0
          (run_handlers env source actions target ev kind a b m)
  unfolding run_handlers
  run_handlers-Handled s source actions none ev kind a b m h ht =
      let (ends, acts) = run_actions-Acts env parent source handler ev actions m h.sits.live in
      let acted = (run_actions env source handler ev actions m).0 in
      if_false (run_actions env source handler ev actions m).1 (Handled s none m acted) _ _ ends
        (refl, acts.0 (chain parent s), At-Quiet sound h acts.1)
  run_handlers-Handled s source actions (some t) ev kind a b m h ht =
      let (ends, acts) = run_actions-Acts env parent source handler ev actions m h.sits.live in
      let acted = (run_actions env source handler ev actions m).0 in
      let a0 = At-Quiet sound h acts.1 in
      let (g1, a1) = observe_fired-Reach kind a b t s acted a0 in
      let fired = observe_fired env kind a b t acted in
      let (m2, s2, ran, g2, a2, led) = transition-ReachBy sound s t fired a1 ht in
      let (g3, a3) = observe-Reach sound s2 m2 (transition_complete fired.current t) a2 refl in
      let P = Handled s (some t) m acted in
      if_false (run_actions env source handler ev actions m).1 P _ _ ends (
        bind_case (transition env t fired) P _ m2 ran (
          acts.0 (chain parent s),
          a0,
          (
            observe (transition_complete fired.current t) m2,
            s2,
            refl,
            Goes-trans env parent g1 (Goes-trans env parent g2 g3),
            a3,
            led,
          ),
        ))

  pub run_handlers-Reach :
      (s source : ℕ) (actions : List ℕ) (target : Option ℕ) (ev : Option Ev) (kind a b : ℕ)
      (m : Machine Ev Ctx)
      → At env parent s m
      → IsTarget env.n_states target
      → From sound s m (run_handlers env source actions target ev kind a b m)
  run_handlers-Reach s source actions none ev kind a b m h ht =
      let (ran, g, a') = run_handlers-Handled s source actions none ev kind a b m h ht in
      ((run_actions env source handler ev actions m).0, s, ran, g, a')
  run_handlers-Reach s source actions (some t) ev kind a b m h ht =
      let (g, a0, (m', u, ran, g', a', led)) =
        run_handlers-Handled s source actions (some t) ev kind a b m h ht in
      (m', u, ran, Goes-trans env parent g g', a')

  pub dispatch_trigger-Reach :
      (s state kind trig : ℕ) (m : Machine Ev Ctx)
      → At env parent s m
      → From sound s m (dispatch_trigger env state kind trig m)
  unfolding dispatch_trigger
  dispatch_trigger-Reach s state kind trig m h =
      elim (Option-cases (env.handler_lookup state kind trig)) [
        | inl e ↦
            none_case (env.handler_lookup state kind trig) (From sound s m) _ _ e
              (m, s, refl, Goes-same env parent (chain parent s) refl (λ q. q), h)
        | inr ((actions, target), e) ↦
            some_case (env.handler_lookup state kind trig) (From sound s m) _ _ (actions, target) e
              (run_handlers-Reach s state actions target none 2 state trig m h
                (sound.handles state kind trig actions target e))
      ]
