-- ===== src/Machine/Actions.antt =====
-- Actions and `emit`, from hsmc-macros/src/codegen.rs, with `EmitProxy` of hsmc/src/lib.rs.
use Prim.Native.String.{String}
use text.Mathlib.Text.{◌==◌ as str_eq}
use hsmc.Ir.{ActionIr, BoundVariant, as_u16, u16_max}
use hsmc.Journal.{
  ActionKind, Reply, ok, err, queue_full, already_terminated, emit_queued, emit_failed,
  action_invoked,
}
use hsmc.Machine.{Env, Machine, Program, done, emit, observe}
use hsmc.Prelude.{
  ℕ, List, Bool, Option, none, false, if◌then◌else◌, get_elem?, ◌∷◌, some, ◌+◌, ◌||◌, true, [],
}

-- The first position of a name, counted from `i`.
abbrev pub position : ℕ → String → List String → Option ℕ
position i name [] = none
position i name (x ∷ xs) = if str_eq x name then some i else position (i + 1) name xs

abbrev pub any_bound : String → List BoundVariant → Bool
any_bound name [] = false
any_bound name (b ∷ bs) = str_eq b.name name || any_bound name bs

module _ {Ev Ctx : Type 0} (env : Env Ev Ctx) where
  -- `__event_to_id`, with `u16::MAX` for a variant that the chart does not name
  unfoldable pub event_to_id : Ev → ℕ
  event_to_id ev = elim (position 0 (env.variant ev) env.event_variants) [
    | none ↦ u16_max
    | some i ↦ as_u16 i
  ]

  -- `__check_terminate`
  unfoldable pub check_terminate : Ev → Bool
  check_terminate ev = elim env.terminate_event [
    | none ↦ false
    | some t ↦ str_eq t (env.variant ev)
  ]

  -- `EmitProxy::push`
  unfoldable pub proxy_push : Machine Ev Ctx → Ev → Machine Ev Ctx × Reply
  proxy_push m ev =
      if m.overflow
      then (m, err queue_full)
      else elim (env.deque.push_back env.queue_capacity m.queue ev) [
        | some queue' ↦ (record m { queue = queue' }, ok)
        | none ↦ (record m { overflow = true }, err queue_full)
      ]

  -- `emit` of the action context
  unfoldable pub emit_event : Machine Ev Ctx → Ev → Machine Ev Ctx × Reply
  emit_event m ev =
      if m.terminated
      then (m, err already_terminated)
      else let (m', reply) = proxy_push m ev in
        elim reply [
          | ok ↦ (observe (emit_queued (event_to_id ev)) m', ok)
          | err e ↦ (observe (emit_failed (event_to_id ev)) m', err e)
        ]

  unfoldable pub run_program : Program Ev Ctx → Machine Ev Ctx → Machine Ev Ctx
  run_program (done ctx) m = record m { ctx = ctx }
  run_program (emit ev rest) m = let (m', reply) = emit_event m ev in run_program (rest reply) m'

  -- The match arm of one action in `run_action`.
  unfoldable pub call : ActionIr → Option Ev → Ctx → Program Ev Ctx
  call a event ctx = elim a.params [
    | [] ↦ env.method a.name ctx
    | p ∷ ps ↦ elim event [
      | none ↦ done ctx
      | some ev ↦
          if any_bound (env.variant ev) a.bound_variants
          then env.bound_method a.name ev ctx
          else done ctx
    ]
  ]

  unfoldable pub run_action : ℕ → Option Ev → Machine Ev Ctx → Machine Ev Ctx
  run_action aid event m = elim (get_elem? env.actions aid) [
    | none ↦ m
    | some a ↦ run_program (call a event m.ctx) m
  ]

  -- `for &aid in actions { observe; self.run_action(aid, event); if self.terminated { return; } }`.
  -- The flag says that the loop returned early.
  unfoldable pub run_actions :
      ℕ → ActionKind → Option Ev → List ℕ → Machine Ev Ctx → Machine Ev Ctx × Bool
  run_actions sid kind event [] m = (m, false)
  run_actions sid kind event (aid ∷ rest) m =
      let m' = run_action aid event (observe (action_invoked sid aid kind) m) in
      let next = run_actions sid kind event rest m' in if m'.terminated then (m', true) else next
