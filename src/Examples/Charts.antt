-- ===== src/Examples/Charts.antt =====
-- The chart of the example as `generate` of hsmc-macros/src/codegen.rs lays it out.
pub mod Runs
pub mod Calls
use Prim.Native.String.{String}
use hsmc.Codegen.Tables
use hsmc.Codegen.Walks
use hsmc.Codegen.Walks.Tree.{IsTree, chain}
use hsmc.Examples.{states, parent, depth, list_vec, list_deque}
use hsmc.Ir.{u16_max, parent_of, depth_of}
use hsmc.Machine.{Chart, Env, User, done, emit}
use hsmc.Machine.Sound.{Sound, IsTarget}
use hsmc.Journal.Replay.{In}
use hsmc.Timers.Owners.{Covered}
use hsmc.Machine.Sound.Tables.{Built, tables_fill}
use hsmc.Prelude.{
  subst, if_cases, ◌≤◌, ◌⊎◌, ◌*◌, get_elem?, ℕ, zero, suc, ◌+◌, ◌<◌, ◌≡◌, ◌==◌, refl, true, false,
  Option, none, some, List, [], ◌∷◌, if◌then◌else◌, inl, inr, arith,
}

-- `on Back` in the root calls an action; `on Go` leads from 1 to 2; the timer of 1 leads to 3.
abbrev row_of : ℕ × List ℕ × Option ℕ → List (ℕ × List ℕ × Option ℕ) → List (ℕ × List ℕ × Option ℕ)
row_of go rest = go ∷ (0, 0 ∷ [], none) ∷ rest

abbrev nothing : ℕ × List ℕ × Option ℕ
nothing = (65535, [], none)

abbrev lookup : ℕ → ℕ → ℕ → Option (List ℕ × Option ℕ)
lookup state kind trigger =
    if state == 1 then (if kind == 1 then some ([], some 3) else none) else none

abbrev chart : Chart
chart = record {
  chart_hash = 7;
  n_states = 4;
  n_events = 2;
  depth = 0 ∷ 1 ∷ 1 ∷ 2 ∷ [];
  default_child = some 1 ∷ none ∷ some 3 ∷ none ∷ [];
  path_data =
      0 ∷ 0 ∷ 1 ∷ 2 ∷ 2 ∷ 3 ∷ 1 ∷ 1 ∷ 1 ∷ 1 ∷ 2 ∷ 1 ∷ 2 ∷ 3 ∷ 2 ∷ 2 ∷ 1 ∷ 2 ∷ 2 ∷ 3 ∷ 3 ∷ 2 ∷ 3 ∷ 2
      ∷ 1 ∷ 3 ∷ 3 ∷ 3 ∷ [];
  path_range =
      (0, 1, 2)
      ∷ (2, 2, 3)
      ∷ (3, 3, 4)
      ∷ (4, 4, 6)
      ∷ (6, 7, 7)
      ∷ (7, 8, 9)
      ∷ (9, 10, 11)
      ∷ (11, 12, 14)
      ∷ (14, 15, 15)
      ∷ (15, 16, 17)
      ∷ (17, 18, 19)
      ∷ (19, 19, 20)
      ∷ (20, 22, 22)
      ∷ (22, 24, 25)
      ∷ (25, 26, 26)
      ∷ (26, 27, 28)
      ∷ [];
  terminate_data = 0 ∷ 1 ∷ 0 ∷ 2 ∷ 0 ∷ 3 ∷ 2 ∷ 0 ∷ [];
  terminate_range = (0, 1) ∷ (1, 3) ∷ (3, 5) ∷ (5, 8) ∷ [];
  dispatch = row_of nothing (row_of (1, [], some 2) (row_of nothing (row_of nothing [])));
  handler_lookup = lookup;
  entries_of = λ s. if s == 3 then 1 ∷ [] else [];
  exits_of = λ s. [];
  owned_timers = λ s. if s == 1 then 0 ∷ [] else [];
  durings_count = λ s. if s == 2 then 1 else 0;
  duration_for = λ t. 500;
  duration_repeats = λ t. false;
  has_timers = true;
  max_timers = 1;
  actions =
      record { name = "note"; params = []; bound_variants = [] }
      ∷ record { name = "ring"; params = []; bound_variants = [] }
      ∷ [];
  event_variants = "Go" ∷ "Back" ∷ [];
  terminate_event = some "Back";
}

-- An event is its variant; `ring` emits, and every action counts.
abbrev user : User String ℕ
user = record {
  variant = λ e. e;
  method = λ name n. emit "Back" (λ r. done (n + 1));
  bound_method = λ name e n. done n;
}

abbrev pub env : Env String ℕ
env = record { chart = chart; user = user; deque = list_deque; vec = list_vec; queue_capacity = 2 }

pub states-IsTree : IsTree 4 parent depth
unfolding parent_of depth_of
states-IsTree = record {
  rooted = rooted;
  top = refl;
  smaller = smaller;
  deeper = deeper;
  shallow = refl;
}
  where
    rooted : (s : ℕ) → s < 4 → parent s ≡ none → s ≡ 0
    rooted zero h e = refl
    rooted (suc zero) h e = cc
    rooted (suc (suc zero)) h e = cc
    rooted (suc (suc (suc zero))) h e = cc
    rooted (suc (suc (suc (suc s)))) h e = omega arith

    smaller : (s p : ℕ) → parent s ≡ some p → p < s
    smaller zero p e = cc
    smaller (suc zero) p e = let same : 0 ≡ p = cc in omega (arith, same)
    smaller (suc (suc zero)) p e = let same : 0 ≡ p = cc in omega (arith, same)
    smaller (suc (suc (suc zero))) p e = let same : 2 ≡ p = cc in omega (arith, same)
    smaller (suc (suc (suc (suc s)))) p e = cc

    deeper : (s p : ℕ) → parent s ≡ some p → depth s ≡ depth p + 1
    deeper zero p e = cc
    deeper (suc zero) p e = let same : 0 ≡ p = cc in rw (← same)
    deeper (suc (suc zero)) p e = let same : 0 ≡ p = cc in rw (← same)
    deeper (suc (suc (suc zero))) p e = let same : 2 ≡ p = cc in rw (← same)
    deeper (suc (suc (suc (suc s)))) p e = cc

pub env-Built : Built env states
unfolding Tables.path_table Tables.compute_terminate_paths Tables.compute_transition_paths
    Tables.merge Tables.append_pair Tables.for_states Tables.for_pairs Tables.rows Tables.row
    Tables.extend Walks.compute_one Walks.lca Walks.climb Walks.meet Walks.passes
    Walks.is_strict_ancestor Walks.up_walk Walks.lateral_walk Walks.terminate_walk parent_of
    depth_of
env-Built = record {
  count = refl;
  table = record { path_data = env.path_data; path_range = env.path_range };
  made = refl;
  data_same = refl;
  range_same = refl;
  ends = record { blob = env.terminate_data; range = env.terminate_range };
  ends_made = refl;
  ends_data = refl;
  ends_range = refl;
}

pub sound : Sound env parent depth
unfolding chain Walks.Tree.ancestry parent_of depth_of
sound = record {
  tree = states-IsTree;
  inhabited = omega arith;
  paths = (tables_fill env states states-IsTree (omega arith) env-Built).0;
  terminates = (tables_fill env states states-IsTree (omega arith) env-Built).1;
  rank = rank;
  rank_le = rank_le;
  defaults = defaults;
  dispatches = dispatches;
  handles = handles;
  events = refl;
  covers = covers;
  unarmed = λ off. cc;
}
  where
    rank : ℕ → ℕ
    rank zero = 1
    rank (suc (suc zero)) = 1
    rank _ = 0

    rank_le : (s : ℕ) → rank s ≤ 4
    rank_le zero = omega arith
    rank_le (suc zero) = omega arith
    rank_le (suc (suc zero)) = omega arith
    rank_le (suc (suc (suc s))) = omega arith

    defaults :
        (s : ℕ)
        → s < 4
        → (d : Option ℕ) × (get_elem? env.default_child s ≡ some d)
          × ((c : ℕ) → d ≡ some c → (c < 4) × (rank c < rank s))
    defaults zero h =
        (some 1, refl, λ c e. let same : 1 ≡ c = cc in rw (← same) (omega arith, omega arith))
    defaults (suc zero) h = (none, refl, λ c e. cc)
    defaults (suc (suc zero)) h =
        (some 3, refl, λ c e. let same : 3 ≡ c = cc in rw (← same) (omega arith, omega arith))
    defaults (suc (suc (suc zero))) h = (none, refl, λ c e. cc)
    defaults (suc (suc (suc (suc s)))) h = absurd (omega arith)

    Row : ℕ → ℕ → Type 0
    Row s ev =
        (h : ℕ) × (actions : List ℕ) × (target : Option ℕ) × (get_elem? env.dispatch (s * 2 + ev)
          ≡ some (h, actions, target))
        × ((h ≡ u16_max) ⊎ In h (chain parent s))
        × IsTarget 4 target

    dispatches : (s ev : ℕ) → s < 4 → ev < 2 → Row s ev
    dispatches s (suc (suc ev)) h h' = absurd (omega arith)
    dispatches zero zero h h' = (65535, [], none, refl, inl refl, tt)
    dispatches (suc zero) zero h h' = (1, [], some 2, refl, inr (inl refl), omega arith)
    dispatches (suc (suc zero)) zero h h' = (65535, [], none, refl, inl refl, tt)
    dispatches (suc (suc (suc zero))) zero h h' = (65535, [], none, refl, inl refl, tt)
    dispatches zero (suc zero) h h' = (0, 0 ∷ [], none, refl, inr (inl refl), tt)
    dispatches (suc zero) (suc zero) h h' = (0, 0 ∷ [], none, refl, inr (inr (inl refl)), tt)
    dispatches (suc (suc zero)) (suc zero) h h' = (0, 0 ∷ [], none, refl, inr (inr (inl refl)), tt)
    dispatches (suc (suc (suc zero))) (suc zero) h h' =
        (0, 0 ∷ [], none, refl, inr (inr (inr (inl refl))), tt)
    dispatches (suc (suc (suc (suc s)))) ev h h' = absurd (omega arith)

    handles :
        (s kind trigger : ℕ) (actions : List ℕ) (target : Option ℕ)
        → lookup s kind trigger ≡ some (actions, target)
        → IsTarget 4 target
    handles s kind trigger actions target e =
        if_cases (s == 1)
          (λ (r : Option (List ℕ × Option ℕ)). r ≡ some (actions, target) → IsTarget 4 target) _ _
          (λ one.
            if_cases (kind == 1)
              (λ (r : Option (List ℕ × Option ℕ)). r ≡ some (actions, target) → IsTarget 4 target) _
              _
              (λ timer e'. let same : some 3 ≡ target = cc in subst (IsTarget 4) same (omega arith))
              (λ other e'. cc))
          (λ other e'. cc) e

    covers : (s : ℕ) → s < 4 → Covered env.depth s
    covers zero h = (0, refl)
    covers (suc zero) h = (1, refl)
    covers (suc (suc zero)) h = (1, refl)
    covers (suc (suc (suc zero))) h = (2, refl)
    covers (suc (suc (suc (suc s)))) h = absurd (omega arith)
