-- ===== src/Machine/Trace.antt =====
-- What a run of generated code (hsmc-macros/src/codegen.rs) adds to the journal.
pub mod Actions
pub mod States
pub mod Paths
use hsmc.Journal.{TraceEvent}
use hsmc.Timers.Owners.{Owners}
use hsmc.Journal.Replay.{In, trace_step, replay, replay-append}
use hsmc.Machine.{Env, Machine, observe}
use hsmc.Prelude.{
  subst, sym, false, ℕ, ◌≡◌, ◌∙◌, Option, refl, List, length, some, ◌++◌, ◌≤◌, ap, ◌∷◌, [],
  append_assoc, append-nil,
}

-- From `m` to `m'` the journal has grown by events that replay from the active path `a` to `b`, and
-- the queue has kept to its capacity.
pub record Goes {Ev Ctx : Type 0} (env : Env Ev Ctx) (parent : ℕ → Option ℕ) (a : List ℕ)
    (m m' : Machine Ev Ctx) (b : List ℕ) : Type 0 where
  pub delta : List TraceEvent
  pub grown : m'.journal ≡ m.journal ++ delta
  pub replays : replay parent a delta ≡ some b
  pub bounded : length m.queue ≤ env.queue_capacity → length m'.queue ≤ env.queue_capacity

-- A live machine whose timers belong to the active path; a chart without duration triggers has none.
pub record Sits {Ev Ctx : Type 0} (env : Env Ev Ctx) (path : List ℕ) (m : Machine Ev Ctx)
    : Type 0 where
  pub live : m.terminated ≡ false
  pub owned : Owners (λ x. In x path) m.timers
  pub idle : env.has_timers ≡ false → m.timers ≡ []

-- What actions leave alone.
pub record Quiet {Ev Ctx : Type 0} (m m' : Machine Ev Ctx) : Type 0 where
  pub current : m'.current ≡ m.current
  pub timers : m'.timers ≡ m.timers
  pub terminated : m'.terminated ≡ m.terminated

pub Quiet-trans : {Ev Ctx : Type 0} {a b c : Machine Ev Ctx} → Quiet a b → Quiet b c → Quiet a c
Quiet-trans h k = record {
  current = k.current ∙ h.current;
  timers = k.timers ∙ h.timers;
  terminated = k.terminated ∙ h.terminated;
}

module _ {Ev Ctx : Type 0} (env : Env Ev Ctx) (parent : ℕ → Option ℕ) where
  pub Goes-same :
      {m m' : Machine Ev Ctx} (p : List ℕ)
      → m'.journal ≡ m.journal
      → (length m.queue ≤ env.queue_capacity → length m'.queue ≤ env.queue_capacity)
      → Goes env parent p m m' p
  unfolding replay
  Goes-same p j q = record { delta = []; grown = rw append-nil j; replays = refl; bounded = q }

  pub Goes-trans :
      {a b c : List ℕ} {m₁ m₂ m₃ : Machine Ev Ctx}
      → Goes env parent a m₁ m₂ b
      → Goes env parent b m₂ m₃ c
      → Goes env parent a m₁ m₃ c
  Goes-trans {a} {b} {c} {m₁} g h = record {
    delta = g.delta ++ h.delta;
    grown = h.grown ∙ ap (λ l. l ++ h.delta) g.grown ∙ append_assoc m₁.journal g.delta h.delta;
    replays = replay-append parent a g.delta h.delta g.replays ∙ h.replays;
    bounded = λ q. h.bounded (g.bounded q);
  }

  pub Goes-observe :
      (m : Machine Ev Ctx) (e : TraceEvent) {p q : List ℕ}
      → trace_step parent p e ≡ some q
      → Goes env parent p m (observe e m) q
  unfolding observe replay
  Goes-observe m e h = record { delta = e ∷ []; grown = refl; replays = rw h; bounded = λ x. x }

pub Quiet-observe : {Ev Ctx : Type 0} (m : Machine Ev Ctx) (e : TraceEvent) → Quiet m (observe e m)
unfolding observe
Quiet-observe m e = record { current = refl; timers = refl; terminated = refl }

module _ {Ev Ctx : Type 0} (env : Env Ev Ctx) (path : List ℕ) where
  -- Actions leave a machine where it sits.
  pub Sits-Quiet : {m m' : Machine Ev Ctx} → Sits env path m → Quiet m m' → Sits env path m'
  Sits-Quiet h q = record {
    live = q.terminated ∙ h.live;
    owned = subst (Owners (λ x. In x path)) (sym q.timers) h.owned;
    idle = λ off. q.timers ∙ h.idle off;
  }
