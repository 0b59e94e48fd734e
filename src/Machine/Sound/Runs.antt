-- ===== src/Machine/Sound/Runs.antt =====
-- The owner's calls of a machine that hsmc-macros/src/codegen.rs generates, in any order.
use hsmc.Journal.{Reply}
use hsmc.Journal.Replay.{replay}
use hsmc.Machine.{Env, Machine, new}
use hsmc.Machine.Step.{step, send}
use hsmc.Machine.Trace.{Goes, Goes-same, Goes-trans}
use hsmc.Machine.Trace.Actions.{push_back_bounded}
use hsmc.Machine.Sound.{Sound, IsSound, path_of}
use hsmc.Machine.Sound.Steps.{step-IsSound}
use hsmc.Prelude.{
  ℕ, ◌≤◌, ◌≡◌, sym, subst, refl, ◌>>=◌, Option, some, Option-cases, inl, inr, List, [], ◌∷◌, length,
  if_cases, some_case, none_case, bind_case, arith,
}

-- A call: `step` with the time that has passed, or `send`.
pub data Call (Ev : Type 0) : Type 0 where
  tick : ℕ → Call Ev
  post : Ev → Call Ev

pub calls :
    {Ev Ctx : Type 0} (env : Env Ev Ctx) → List (Call Ev) → Machine Ev Ctx → Option (Machine Ev Ctx)
calls env [] m = some m
calls env (tick elapsed ∷ rest) m = step env elapsed m >>= λ r. calls env rest r.0
calls env (post ev ∷ rest) m = calls env rest (send env ev m).0

module _ {Ev Ctx : Type 0} {env : Env Ev Ctx} {parent : ℕ → Option ℕ} {depth : ℕ → ℕ}
    (sound : Sound env parent depth) where
  -- What calls lead to.
  abbrev Leads : Machine Ev Ctx → Machine Ev Ctx → Type 0
  Leads m m' =
      IsSound env parent m' × Goes env parent (path_of env parent m) m m' (path_of env parent m')

  stays : (m : Machine Ev Ctx) → IsSound env parent m → Leads m m
  stays m h = (h, Goes-same env parent (path_of env parent m) refl (λ q. q))

  send-IsSound : (ev : Ev) (m : Machine Ev Ctx) → IsSound env parent m → Leads m (send env ev m).0
  unfolding send
  send-IsSound ev m h =
      if_cases m.terminated (λ (r : Machine Ev Ctx × Reply). Leads m r.0) _ _ (λ over. stays m h)
        (λ live. elim (Option-cases (env.deque.push_back env.queue_capacity m.queue ev)) [
          | inl e ↦
              none_case (env.deque.push_back env.queue_capacity m.queue ev)
                (λ (r : Machine Ev Ctx × Reply). Leads m r.0) _ _ e (stays m h)
          | inr (queue', e) ↦
              let queued : Machine Ev Ctx = record m { queue = queue' } in
              some_case (env.deque.push_back env.queue_capacity m.queue ev)
                (λ (r : Machine Ev Ctx × Reply). Leads m r.0) _ _ queue' e
                (
                  record { known = h.known; ended = h.ended; owned = h.owned; idle = h.idle },
                  Goes-same env parent {m = m} {m' = queued} (path_of env parent m) refl
                      (λ q. push_back_bounded env.deque env.queue_capacity m.queue ev e),
                )
        ])

  calls-IsSound :
      (cs : List (Call Ev)) (m : Machine Ev Ctx)
      → IsSound env parent m
      → (m' : Machine Ev Ctx) × (calls env cs m ≡ some m') × Leads m m'
  unfolding calls
  calls-IsSound [] m h = (m, refl, stays m h)
  calls-IsSound (tick elapsed ∷ rest) m h =
      let (m1, d, ran, h1, g1, over) = step-IsSound sound elapsed m h in
      let (m2, e, l2) = calls-IsSound rest m1 h1 in
      (
        m2,
        bind_case (step env elapsed m) (λ o. o ≡ some m2) _ (m1, d) ran e,
        (l2.0, Goes-trans env parent g1 l2.1),
      )
  calls-IsSound (post ev ∷ rest) m h =
      let (h1, g1) = send-IsSound ev m h in
      let (m2, e, l2) = calls-IsSound rest (send env ev m).0 h1 in
      (m2, e, (l2.0, Goes-trans env parent g1 l2.1))

  new-IsSound : (ctx : Ctx) → IsSound env parent (new ctx)
  unfolding new
  new-IsSound ctx = record { known = tt; ended = λ e. refl; owned = tt; idle = λ off. refl }

  -- Any sequence of steps and sends on a new machine, of a chart whose tables agree with its states,
  -- returns without an access out of bounds. The machine is sound after it, its whole journal replays
  -- from the empty path to its active path, and its queue is within the capacity.
  pub calls_lem :
      (ctx : Ctx) (cs : List (Call Ev))
      → (m : Machine Ev Ctx) × (calls env cs (new ctx) ≡ some m)
        × IsSound env parent m
        × (replay parent [] m.journal ≡ some (path_of env parent m))
        × (length m.queue ≤ env.queue_capacity)
  unfolding new
  calls_lem ctx cs =
      let (m, e, l) = calls-IsSound cs (new ctx) (new-IsSound ctx) in
      (
        m,
        e,
        l.0,
        subst (λ j. replay parent [] j ≡ some (path_of env parent m)) (sym l.1.grown) l.1.replays,
        l.1.bounded (omega arith),
      )
