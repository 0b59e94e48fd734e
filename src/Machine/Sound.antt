-- ===== src/Machine/Sound.antt =====
-- What the machine of hsmc-macros/src/codegen.rs relies on in its tables, and the invariant of a
-- machine between two calls.
pub mod Transitions
pub mod Handlers
pub mod Events
pub mod Steps
pub mod Runs
pub mod Drains
pub mod Tables
use hsmc.Codegen.Walks.{compute_one}
use hsmc.Codegen.Walks.Tree.{IsTree, chain}
use hsmc.Codegen.Walks.Correct.{Moves, compute_one_lem}
use hsmc.Ir.{u16_max}
use hsmc.Journal.Replay.{In}
use hsmc.Machine.{Env, Machine}
use hsmc.Machine.Transitions.{path_slices}
use hsmc.Machine.Trace.{Goes, Quiet, Sits, Sits-Quiet}
use hsmc.Prelude.{
  ℕ, ◌+◌, ◌*◌, ◌<◌, ◌≤◌, ◌≡◌, ◌⊎◌, Option, none, some, List, [], true, false, get_elem?, slice?,
  length, arith, ◌∙◌,
}
use hsmc.Timers.Owners.{Owners, Covered}

-- A target, where there is one, is a state.
abbrev pub IsTarget : ℕ → Option ℕ → Type 0
IsTarget n none = Unit
IsTarget n (some t) = t < n

-- The tables agree with the state tree. `rank` counts the default steps still to come from a state:
-- the macro refuses a cycle of defaults.
pub record Sound {Ev Ctx : Type 0} (env : Env Ev Ctx) (parent : ℕ → Option ℕ) (depth : ℕ → ℕ)
    : Type 0 where
  pub tree : IsTree env.n_states parent depth
  pub inhabited : 0 < env.n_states
  pub paths :
      (from to : ℕ)
      → from < env.n_states
      → to < env.n_states
      → path_slices env from to ≡ compute_one parent depth env.n_states from to
  pub terminates :
      (s : ℕ)
      → s < env.n_states
      → (a b : ℕ) × (get_elem? env.terminate_range s ≡ some (a, b))
        × (slice? a b env.terminate_data ≡ some (chain parent s))
  pub rank : ℕ → ℕ
  pub rank_le : (s : ℕ) → rank s ≤ env.n_states
  pub defaults :
      (s : ℕ)
      → s < env.n_states
      → (d : Option ℕ) × (get_elem? env.default_child s ≡ some d)
        × ((c : ℕ) → d ≡ some c → (c < env.n_states) × (rank c < rank s))
  pub dispatches :
      (s ev : ℕ)
      → s < env.n_states
      → ev < env.n_events
      → (h : ℕ) × (actions : List ℕ) × (target : Option ℕ) × (get_elem? env.dispatch
            (s * env.n_events + ev)
          ≡ some (h, actions, target))
        × ((h ≡ u16_max) ⊎ In h (chain parent s))
        × IsTarget env.n_states target
  pub handles :
      (s kind trigger : ℕ) (actions : List ℕ) (target : Option ℕ)
      → env.handler_lookup s kind trigger ≡ some (actions, target)
      → IsTarget env.n_states target
  pub events : length env.event_variants ≡ env.n_events
  pub covers : (s : ℕ) → s < env.n_states → Covered env.depth s
  pub unarmed : env.has_timers ≡ false → (s : ℕ) → env.owned_timers s ≡ []

module _ {Ev Ctx : Type 0} (env : Env Ev Ctx) (parent : ℕ → Option ℕ) where
  -- The active path: from the current state to the root.
  abbrev pub path_of : Machine Ev Ctx → List ℕ
  path_of m = elim m.current [ none ↦ [] | some s ↦ chain parent s ]

  pub path_of-none : (m : Machine Ev Ctx) → m.current ≡ none → path_of m ≡ []
  path_of-none m e = rw e

  -- A machine between two calls: its current state is a state, a terminated machine has none, and the
  -- timers belong to the active path.
  pub record IsSound (m : Machine Ev Ctx) : Type 0 where
    pub known : IsTarget env.n_states m.current
    pub ended : m.terminated ≡ true → m.current ≡ none
    pub owned : Owners (λ x. In x (path_of m)) m.timers
    pub idle : env.has_timers ≡ false → m.timers ≡ []

  -- A live machine in the state `s`.
  pub record At (s : ℕ) (m : Machine Ev Ctx) : Type 0 where
    pub here : m.current ≡ some s
    pub known : s < env.n_states
    pub sits : Sits env (chain parent s) m

  pub At-IsSound : (s : ℕ) (m : Machine Ev Ctx) → At s m → IsSound m
  At-IsSound s m h =
      let path : path_of m ≡ chain parent s = rw h.here in
      record {
        known = rw h.here h.known;
        ended = λ e. cc (h.sits.live);
        owned = rw path h.sits.owned;
        idle = h.sits.idle;
      }

  -- A run from the active path `path` that ends live, in a state.
  abbrev pub Reach : List ℕ → Machine Ev Ctx → Option (Machine Ev Ctx) → Type 0
  Reach path m r =
      (m' : Machine Ev Ctx) × (s : ℕ) × (r ≡ some m')
      × Goes env parent path m m' (chain parent s)
      × At s m'

module _ {Ev Ctx : Type 0} {env : Env Ev Ctx} {parent : ℕ → Option ℕ} {depth : ℕ → ℕ}
    (sound : Sound env parent depth) where
  -- The paths of a transition are in the tables.
  pub path_slices-Moves :
      (from to : ℕ)
      → from < env.n_states
      → to < env.n_states
      → (exit enter : List ℕ) × (path_slices env from to ≡ some (exit, enter))
        × Moves parent from to exit enter
  path_slices-Moves from to hf ht =
      let (exit, enter, one, moves) =
        compute_one_lem sound.tree env.n_states from to (omega arith) hf ht in
      (exit, enter, sound.paths from to hf ht ∙ one, moves)

  -- Actions and observations leave a machine where it is.
  pub At-Quiet :
      {s : ℕ} {m m' : Machine Ev Ctx} → At env parent s m → Quiet m m' → At env parent s m'
  At-Quiet {s} h q = record {
    here = q.current ∙ h.here;
    known = h.known;
    sits = Sits-Quiet env (chain parent s) h.sits q;
  }
