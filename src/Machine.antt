-- ===== src/Machine.antt =====
-- The machine that hsmc-macros/src/codegen.rs generates for a chart: its state, its static tables,
-- and what it takes from the user and from `heapless`. The operations are in the modules below; the
-- text under `tokio` or `embassy` differs by `.await` alone.
pub mod Actions
pub mod States
pub mod Transitions
pub mod Step
pub mod Dispatch
pub mod Current
pub mod Trace
pub mod Sound
use Prim.Native.String.{String}
use hsmc.Prelude.{ℕ, Bool, false, Option, none, List, [], ◌∷◌, ◌++◌}
use hsmc.Heapless.{Deque, HeaplessVec}
use hsmc.Ir.{ActionIr}
use hsmc.Journal.{TraceEvent, Reply}
use hsmc.Timers.{TimerEntry}

-- The constants that `generate` emits.
pub record Chart : Type 0 where
  pub chart_hash : ℕ
  pub n_states : ℕ
  pub n_events : ℕ
  pub depth : List ℕ
  pub default_child : List (Option ℕ)
  pub path_data : List ℕ
  pub path_range : List (ℕ × ℕ × ℕ)
  pub terminate_data : List ℕ
  pub terminate_range : List (ℕ × ℕ)
  pub dispatch : List (ℕ × List ℕ × Option ℕ)
  pub handler_lookup : (state kind trigger : ℕ) → Option (List ℕ × Option ℕ)
  pub entries_of : ℕ → List ℕ
  pub exits_of : ℕ → List ℕ
  pub owned_timers : ℕ → List ℕ
  pub durings_count : ℕ → ℕ
  pub duration_for : ℕ → ℕ
  pub duration_repeats : ℕ → Bool
  pub has_timers : Bool
  pub max_timers : ℕ
  pub actions : List ActionIr
  pub event_variants : List String
  pub terminate_event : Option String

-- The body of a user's action: it may emit events and look at the replies, and returns the context.
pub data Program (Ev Ctx : Type 0) : Type 0 where
  done : Ctx → Program Ev Ctx
  emit : Ev → (Reply → Program Ev Ctx) → Program Ev Ctx

-- The user's event type and the methods of the actions trait, by name; a method with typed
-- bindings is given the event that carries them.
pub record User (Ev Ctx : Type 0) : Type 0 where
  pub variant : Ev → String
  pub method : String → Ctx → Program Ev Ctx
  pub bound_method : String → Ev → Ctx → Program Ev Ctx

-- What a machine type is built from; `queue_capacity` is `__QN`.
pub record Env (Ev Ctx : Type 0) : Type 0 where
  pub chart : Chart
  pub open chart use *
  pub user : User Ev Ctx
  pub open user use *
  pub deque : Deque Ev
  pub vec : HeaplessVec TimerEntry
  pub queue_capacity : ℕ

pub record Machine (Ev Ctx : Type 0) : Type 0 where
  pub ctx : Ctx
  pub current : Option ℕ
  pub queue : List Ev
  pub timers : List TimerEntry
  pub terminated : Bool
  pub overflow : Bool
  pub journal : List TraceEvent

-- `with_queue_capacity_internal`
unfoldable pub new : {Ev Ctx : Type 0} → Ctx → Machine Ev Ctx
new ctx = record {
  ctx = ctx;
  current = none;
  queue = [];
  timers = [];
  terminated = false;
  overflow = false;
  journal = [];
}

-- `__chart_observe!` with the `journal` feature
unfoldable pub observe : {Ev Ctx : Type 0} → TraceEvent → Machine Ev Ctx → Machine Ev Ctx
observe e m = record m { journal = m.journal ++ e ∷ [] }
