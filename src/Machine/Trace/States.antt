-- ===== src/Machine/Trace/States.antt =====
-- Entering and leaving one state (hsmc-macros/src/codegen.rs) moves the active path by that state.
use hsmc.Journal.{
  exit, exit_began, exited, during_cancelled, timer_cancelled, TraceEvent, during_started,
  enter_began, entry, entered,
}
use hsmc.Journal.Replay.{trace_step, head?, In, same_option, same_option_refl}
use hsmc.Timers.{TimerEntry, start, cancel_state}
use hsmc.Timers.Owners.{Owners, start-Owners, cancel_state-Owners}
use hsmc.Machine.{Env, Machine, observe}
use hsmc.Machine.Actions.{run_actions}
use hsmc.Machine.States.{
  observe_durings, observe_each, arm, arm_each, enter_state_no_descent, exit_state, cancel_timers,
}
use hsmc.Machine.Trace.{
  Goes, Goes-same, Goes-trans, Goes-observe, Quiet-observe, Quiet-trans, Sits, Sits-Quiet,
}
use hsmc.Machine.Trace.Actions.{Acts, Acts-refl, Acts-trans, run_actions-Acts}
use hsmc.Prelude.{
  ℕ, Option, List, ◌∷◌, ◌≡◌, some, false, ◌∙◌, refl, suc, [], ◌+◌, true, zero, inl, none, ◌≢◌,
  if_false, sym, arith, subst, inr, if_cases, All-map, ≡→==,
}

module _ {Ev Ctx : Type 0} (env : Env Ev Ctx) (parent : ℕ → Option ℕ) where
  observe_durings-Acts :
      (mark : ℕ → TraceEvent) (left di : ℕ) (m : Machine Ev Ctx)
      → ((i : ℕ) (p : List ℕ) → trace_step parent p (mark i) ≡ some p)
      → Acts env parent m (observe_durings mark left di m)
  unfolding observe_durings
  observe_durings-Acts mark zero di m h = Acts-refl env parent m
  observe_durings-Acts mark (suc left) di m h =
      Acts-trans env parent
        (λ p. Goes-observe env parent m (mark di) (h di p), Quiet-observe m (mark di))
        (observe_durings-Acts mark left (di + 1) (observe (mark di) m) h)

  observe_each-Acts :
      (mark : ℕ → TraceEvent) (tids : List ℕ) (m : Machine Ev Ctx)
      → ((i : ℕ) (p : List ℕ) → trace_step parent p (mark i) ≡ some p)
      → Acts env parent m (observe_each mark tids m)
  unfolding observe_each
  observe_each-Acts mark [] m h = Acts-refl env parent m
  observe_each-Acts mark (tid ∷ rest) m h =
      Acts-trans env parent
        (λ p. Goes-observe env parent m (mark tid) (h tid p), Quiet-observe m (mark tid))
        (observe_each-Acts mark rest (observe (mark tid) m) h)

  -- Like `Acts`, where the timers change.
  abbrev Arms : (ℕ → Type 0) → Machine Ev Ctx → Machine Ev Ctx → Type 0
  Arms Q m m' =
      ((p : List ℕ) → Goes env parent p m m' p)
      × (m'.current ≡ m.current)
      × (m'.terminated ≡ m.terminated)
      × (Owners Q m.timers → Owners Q m'.timers)

  pub arm-Arms :
      (Q : ℕ → Type 0) (sid tid : ℕ) (m : Machine Ev Ctx) → Q sid → Arms Q m (arm env sid tid m)
  unfolding arm observe
  arm-Arms Q sid tid m q =
      let armed = record m {
        timers = start env.vec env.max_timers sid tid (env.duration_for tid) m.timers;
      } in
      (
        λ p.
            Goes-trans env parent (Goes-same env parent {m = m} {m' = armed} p refl (λ x. x))
              (Goes-observe env parent armed _ refl),
        refl,
        refl,
        λ o. start-Owners Q env.vec env.max_timers sid tid (env.duration_for tid) m.timers q o,
      )

  arm_each-Arms :
      (Q : ℕ → Type 0) (sid : ℕ) (tids : List ℕ) (m : Machine Ev Ctx)
      → Q sid
      → Arms Q m (arm_each env sid tids m)
  unfolding arm_each
  arm_each-Arms Q sid [] m q = (λ p. Goes-same env parent p refl (λ x. x), refl, refl, λ o. o)
  arm_each-Arms Q sid (tid ∷ rest) m q =
      let (g, c, t, o) = arm-Arms Q sid tid m q in
      let (g', c', t', o') = arm_each-Arms Q sid rest (arm env sid tid m) q in
      (λ p. Goes-trans env parent (g p) (g' p), c' ∙ c, t' ∙ t, λ x. o' (o x))

  arm_each-none :
      (sid : ℕ) (tids : List ℕ) (m : Machine Ev Ctx)
      → tids ≡ []
      → (arm_each env sid tids m).timers ≡ m.timers
  unfolding arm_each
  arm_each-none sid [] m h = refl
  arm_each-none sid (tid ∷ rest) m h = cc

  -- A machine enters a state under its parent: the state is then innermost, and the machine sits on
  -- the longer path.
  abbrev pub Enters : ℕ → List ℕ → Machine Ev Ctx → Machine Ev Ctx → Type 0
  Enters sid path m m' =
      Goes env parent path m m' (sid ∷ path) × (m'.current ≡ some sid) × Sits env (sid ∷ path) m'

  -- Its end: the timers are armed, the state is made current and its durings are started.
  enter_end :
      (sid : ℕ) (path : List ℕ) (m : Machine Ev Ctx)
      → (env.has_timers ≡ false → env.owned_timers sid ≡ [])
      → Sits env path m
      → same_option (parent sid) (head? path) ≡ true
      → let here = record (arm_each env sid (env.owned_timers sid) m) { current = some sid } in
        Enters sid path m (
          observe
            (entered sid)
            (observe_durings (during_started sid) (env.durings_count sid) 0 here))
  enter_end sid path m unarmed h fits =
      let (g2, c2, t2, o2) =
        arm_each-Arms (λ x. In x (sid ∷ path)) sid (env.owned_timers sid) m (inl refl) in
      let armed = arm_each env sid (env.owned_timers sid) m in
      let here : Machine Ev Ctx = record armed { current = some sid } in
      let (g3, q3) =
        observe_durings-Acts (during_started sid) (env.durings_count sid) 0 here (λ i p. refl) in
      let seen = observe_durings (during_started sid) (env.durings_count sid) 0 here in
      let g4 : Goes env parent path seen (observe (entered sid) seen) (sid ∷ path) =
        Goes-observe env parent seen (entered sid) (rw fits) in
      let q4 = Quiet-observe seen (entered sid) in
      let g1 : Goes env parent path armed here path =
        Goes-same env parent {m = armed} {m' = here} path refl (λ x. x) in
      let sits : Sits env (sid ∷ path) here = record {
        live = t2 ∙ h.live;
        owned = o2 (All-map (λ (e : TimerEntry) q. inr q) m.timers h.owned);
        idle = λ off. arm_each-none sid (env.owned_timers sid) m (unarmed off) ∙ h.idle off;
      } in
      (
        Goes-trans env parent (g2 path)
            (Goes-trans env parent g1 (Goes-trans env parent (g3 path) g4)),
        q4.current ∙ q3.current,
        Sits-Quiet env (sid ∷ path) (Sits-Quiet env (sid ∷ path) sits q3) q4,
      )

  -- `enter_state_no_descent`, on the path of the parent of the state: the journal replays to the path
  -- that has the state on top, the state is current, and every timer is owned by that path.
  pub enter_state_lem :
      (sid : ℕ) (path : List ℕ) (m : Machine Ev Ctx)
      → (env.has_timers ≡ false → env.owned_timers sid ≡ [])
      → Sits env path m
      → parent sid ≡ head? path
      → Enters sid path m (enter_state_no_descent env sid m)
  unfolding enter_state_no_descent
  enter_state_lem sid path m unarmed h top =
      let fits : same_option (parent sid) (head? path) ≡ true =
        rw top (same_option_refl (head? path)) in
      let began = observe (enter_began sid) m in
      let h0 = Sits-Quiet env path h (Quiet-observe m (enter_began sid)) in
      let g0 : Goes env parent path m began path =
        Goes-observe env parent m (enter_began sid) (rw fits) in
      let (ends, acts) =
        run_actions-Acts env parent sid entry none (env.entries_of sid) began h0.live in
      let acted = (run_actions env sid entry none (env.entries_of sid) began).0 in
      let (g2, c2, s2) = enter_end sid path acted unarmed (Sits-Quiet env path h0 acts.1) fits in
      if_false (run_actions env sid entry none (env.entries_of sid) began).1 (Enters sid path m) _ _
        ends (Goes-trans env parent g0 (Goes-trans env parent (acts.0 path) g2), c2, s2)

  -- A machine goes from the active path `a` to `b` by exits alone: it sits on `b`, and its current
  -- state, which the exits do not write, is the one it had.
  abbrev pub Leaves : List ℕ → Machine Ev Ctx → Machine Ev Ctx → List ℕ → Type 0
  Leaves a m m' b = Goes env parent a m m' b × (m'.current ≡ m.current) × Sits env b m'

  cancel_timers_lem :
      (sid : ℕ) (path : List ℕ) (m : Machine Ev Ctx)
      → Sits env (sid ∷ path) m
      → Goes env parent (sid ∷ path) m (cancel_timers env sid m) (sid ∷ path)
        × ((cancel_timers env sid m).current ≡ m.current)
        × Sits env path (cancel_timers env sid m)
  unfolding cancel_timers
  cancel_timers_lem sid path m h = (
    Goes-same env parent (sid ∷ path) (ground arith) (ground arith),
    ground arith,
    record {
      live = ground (arith, h.live);
      owned =
          if_cases env.has_timers (λ (r : Machine Ev Ctx). Owners (λ x. In x path) r.timers) _ _
            (λ on.
              All-map (λ (e : TimerEntry) q. other e.state q.0 q.1)
                (cancel_state env.vec sid m.timers)
                (cancel_state-Owners (λ x. In x (sid ∷ path)) env.vec sid m.timers h.owned))
            (λ off. subst (Owners (λ x. In x path)) (sym (h.idle off)) tt);
      idle = λ off. rw off (h.idle off);
    },
  )
    where
      other : (x : ℕ) → In x (sid ∷ path) → x ≢ sid → In x path
      other x (inl same) differ = absurd (differ same)
      other x (inr rest) differ = rest

  -- `exit_state` of the innermost state: the journal replays to the path without it, and none of its
  -- timers is left.
  pub exit_state_lem :
      (sid : ℕ) (path : List ℕ) (m : Machine Ev Ctx)
      → Sits env (sid ∷ path) m
      → Leaves (sid ∷ path) m (exit_state env sid m) path
  unfolding exit_state
  exit_state_lem sid path m h =
      let all = sid ∷ path in
      let top : same_option (some sid) (head? all) ≡ true = same_option_refl (some sid) in
      let began = observe (exit_began sid) m in
      let q0 = Quiet-observe m (exit_began sid) in
      let g0 : Goes env parent all m began all =
        Goes-observe env parent m (exit_began sid) (rw top) in
      let (g1, q1) =
        observe_durings-Acts (during_cancelled sid) (env.durings_count sid) 0 began (λ i p. refl) in
      let stopped = observe_durings (during_cancelled sid) (env.durings_count sid) 0 began in
      let (g2, q2) =
        observe_each-Acts (timer_cancelled sid) (env.owned_timers sid) stopped (λ i p. refl) in
      let noted = observe_each (timer_cancelled sid) (env.owned_timers sid) stopped in
      let q = Quiet-trans q0 (Quiet-trans q1 q2) in
      let (g3, c3, s3) = cancel_timers_lem sid path noted (Sits-Quiet env all h q) in
      let cleared = cancel_timers env sid noted in
      let (ends, acts) =
        run_actions-Acts env parent sid exit none (env.exits_of sid) cleared s3.live in
      let acted = (run_actions env sid exit none (env.exits_of sid) cleared).0 in
      let g5 : Goes env parent all acted (observe (exited sid) acted) path =
        Goes-observe env parent acted (exited sid) (rw (≡→== sid sid refl)) in
      let q5 = Quiet-trans acts.1 (Quiet-observe acted (exited sid)) in
      let before = Goes-trans env parent (g1 all) (Goes-trans env parent (g2 all) g3) in
      if_false (run_actions env sid exit none (env.exits_of sid) cleared).1
        (λ (r : Machine Ev Ctx). Leaves all m r path) _ _ ends
        (
          Goes-trans env parent g0
              (Goes-trans env parent before (Goes-trans env parent (acts.0 all) g5)),
          q5.current ∙ c3 ∙ q.current,
          Sits-Quiet env path s3 q5,
        )
