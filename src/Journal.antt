-- ===== src/Journal.antt =====
-- hsmc/src/journal.rs: the trace of a chart's execution, and hsmc/src/error.rs.
pub mod Replay
use hsmc.Prelude.{ℕ, Option}

pub data HsmcError : Type 0 where
  queue_full already_terminated : HsmcError

-- `Result<(), HsmcError>`
pub data Reply : Type 0 where
  ok : Reply
  err : HsmcError → Reply

pub data ActionKind : Type 0 where
  entry exit handler : ActionKind

pub data TransitionReason : Type 0 where
  event : (event : ℕ) → TransitionReason
  timer : (state timer : ℕ) → TransitionReason
  internal : TransitionReason

pub data TraceEvent : Type 0 where
  started : (chart_hash : ℕ) → TraceEvent
  enter_began : (state : ℕ) → TraceEvent
  entered : (state : ℕ) → TraceEvent
  exit_began : (state : ℕ) → TraceEvent
  exited : (state : ℕ) → TraceEvent
  action_invoked : (state action : ℕ) (kind : ActionKind) → TraceEvent
  during_started : (state during : ℕ) → TraceEvent
  during_cancelled : (state during : ℕ) → TraceEvent
  transition_fired : (from : Option ℕ) (to : ℕ) (reason : TransitionReason) → TraceEvent
  transition_complete : (from : Option ℕ) (to : ℕ) → TraceEvent
  event_received : (event : ℕ) → TraceEvent
  event_delivered : (handler_state event : ℕ) → TraceEvent
  event_dropped : (event : ℕ) → TraceEvent
  emit_queued : (event : ℕ) → TraceEvent
  emit_failed : (event : ℕ) → TraceEvent
  terminate_requested : (event : ℕ) → TraceEvent
  timer_armed : (state timer ns : ℕ) → TraceEvent
  timer_cancelled : (state timer : ℕ) → TraceEvent
  timer_fired : (state timer : ℕ) → TraceEvent
  terminated : TraceEvent
