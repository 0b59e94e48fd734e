-- ===== src/Machine/Dispatch.antt =====
-- `dispatch` of the machine that hsmc-macros/src/codegen.rs generates under `tokio` and `embassy`. An
-- action may emit events for ever, so the loop may not end: fuel bounds its rounds, and the reply of a
-- loop that still runs is `none`. The outer `none` is an access out of bounds.
use hsmc.Journal.{Reply, ok, err, queue_full, already_terminated}
use hsmc.Machine.{Env, Machine}
use hsmc.Machine.Step.{step, take_overflow, has_pending_events}
use hsmc.Prelude.{ℕ, zero, suc, ◌>>=◌, Bool, Option, none, some, if◌then◌else◌}

module _ {Ev Ctx : Type 0} (env : Env Ev Ctx) where
  abbrev pub Drained : Type 0
  Drained = Machine Ev Ctx × Option Reply

  -- The two returns after a `step`; `next` is what follows.
  abbrev pub settle : (Machine Ev Ctx → Option Drained) → Machine Ev Ctx × Bool → Option Drained
  settle next o =
      if o.1
      then some (o.0, some (err queue_full))
      else if o.0.terminated
      then some (o.0, some ok)
      else next o.0

  unfoldable pub round : (Machine Ev Ctx → Option Drained) → Machine Ev Ctx → Option Drained
  round next m = do r ← step env 0 m; settle next (take_overflow r.0)

  -- `while !self.queue.is_empty() { .. } Ok(())`
  unfoldable pub drain : ℕ → Machine Ev Ctx → Option Drained
  unfolding round
  drain zero m = some (m, none)
  drain (suc fuel) m = if has_pending_events m then round (drain fuel) m else some (m, some ok)

  unfoldable pub dispatch : ℕ → Ev → Machine Ev Ctx → Option Drained
  unfolding drain
  dispatch fuel ev m =
      if m.terminated
      then some (m, some (err already_terminated))
      else elim (env.deque.push_back env.queue_capacity m.queue ev) [
        | none ↦ some (m, some (err queue_full))
        | some queue' ↦ elim m.current [
          | none ↦ round (drain fuel) (record m { queue = queue' })
          | some s ↦ drain fuel (record m { queue = queue' })
        ]
      ]
