-- ===== src/Codegen/Generate/Sound.antt =====
-- The tables that `generate` of hsmc-macros/src/codegen.rs lays out are what the machine relies on.
use Prim.Native.String.{String}
use hsmc.Codegen.Dispatch.{Slot, Entry, entry_of, compute_event_dispatch}
use hsmc.Codegen.Dispatch.Nearest.{first_handled, dispatch_lem}
use hsmc.Codegen.Generate.{generate, lay_out, is_empty, state_arm, arm_ids}
use hsmc.Codegen.Generate.Groups.{first_handled-Known, lookup_handlers-Known, state_arm-All}
use hsmc.Codegen.Tables.{PathTable, Blob, path_table, compute_terminate_paths}
use hsmc.Codegen.Walks.Tree.{IsTree, chain}
use hsmc.Ir.{Ir, StateIr, DurationTrigger, EventVariantIr, u16_max, parent_of, depth_of}
use hsmc.Journal.Replay.{In}
use hsmc.Lower.Bodies.Forest.{IsForest-IsTree, length-frames}
use hsmc.Lower.Resolve.Targets.{IsResolved, IsKnown}
use hsmc.Machine.{Chart, Env}
use hsmc.Machine.Sound.{Sound, IsTarget}
use hsmc.Machine.Sound.Tables.{Built, tables_fill}
use hsmc.Prelude.{
  get_elem?-range, ℕ, zero, suc, ◌+◌, ◌*◌, ◌<◌, ◌≡◌, ap, subst, refl, ◌⊎◌, inl, inr, not, false,
  Option, none, some, >>=-eq-some, Option-cases, none_case, some_case, List, [], ◌∷◌, map, length,
  get_elem?, get_elem?-some, All, All-get_elem?, arith,
}
use hsmc.Validate.Graph.Chase.{next_of, Ends}
use hsmc.Validate.Graph.Rank.{rank, rank-le, rank-down}

length-map : {A B : Type 0} (f : A → B) (xs : List A) → length (map f xs) ≡ length xs
length-map f [] = refl
length-map f (x ∷ xs) = ap suc (length-map f xs)

get_elem?-map :
    {A B : Type 0} (f : A → B) (xs : List A) (i : ℕ) {a : A}
    → get_elem? xs i ≡ some a
    → get_elem? (map f xs) i ≡ some (f a)
get_elem?-map f [] i h = cc
get_elem?-map f (x ∷ xs) zero h = let same : x ≡ _ = cc in ap (λ y. some (f y)) same
get_elem?-map f (x ∷ xs) (suc i) h = get_elem?-map f xs i h

-- The entry of a state that is found, or the sentinel.
entry_of-found :
    (r : Option (ℕ × Slot)) (n : ℕ) (path : List ℕ)
    → ((s : ℕ) (slot : Slot) → r ≡ some (s, slot) → In s path × IsTarget n slot.1)
    → ((entry_of r).0 ≡ u16_max ⊎ In (entry_of r).0 path) × IsTarget n (entry_of r).2
entry_of-found none n path h = (inl refl, tt)
entry_of-found (some (s, slot)) n path h = let (i, t) = h s slot refl in (inr i, t)

no_arms :
    (states : List StateIr) (id : ℕ)
    → All (λ (s : StateIr). s.owned_timers ≡ []) states
    → arm_ids (λ (s : StateIr). s.owned_timers) states id ≡ []
no_arms states id a = elim (Option-cases (state_arm id states)) [
  | inl e ↦ none_case (state_arm id states) (λ l. l ≡ []) _ _ e refl
  | inr (st, e) ↦
      some_case (state_arm id states) (λ l. l ≡ []) _ _ st e
        (state_arm-All (λ (s : StateIr). s.owned_timers ≡ []) states id st a e)
]

module _ {Ev Ctx : Type 0} (env : Env Ev Ctx) (as_bytes : String → List ℕ) (value : String → ℕ)
    (ir : Ir) (resolved : IsResolved ir)
    (acyclic : (s : ℕ)
      → s < length ir.states
      → (k : ℕ) × Ends ir.states s k × (k < length ir.states))
    (few_states : length ir.states < 65536) (few_events : length ir.event_variants < 65536) where
  laid : PathTable → Blob → List Entry → Env Ev Ctx
  laid paths ends dispatch = record env { chart = lay_out as_bytes value ir paths ends dispatch }

  tree : IsTree (length ir.states) (parent_of ir.states) (depth_of ir.states)
  tree = IsForest-IsTree ir.states resolved.forest

  default_at :
      (s : ℕ)
      → s < length ir.states
      → (d : Option ℕ) × (get_elem? (map (λ (st : StateIr). st.default_child) ir.states) s ≡ some d)
        × ((c : ℕ) → d ≡ some c → (c < length ir.states) × (rank ir.states c < rank ir.states s))
  unfolding next_of
  default_at s lt =
      let (st, at) = get_elem?-some ir.states s lt in
      let known : IsKnown (length ir.states) st =
        All-get_elem? (IsKnown (length ir.states)) ir.states s st resolved.known at in
      (
        st.default_child,
        get_elem?-map (λ (x : StateIr). x.default_child) ir.states s at,
        λ c e. (
          subst (IsTarget (length ir.states)) e known.1,
          rank-down ir.states acyclic s c lt
              (some_case (get_elem? ir.states s) (λ o. o ≡ some c) _ _ st at e),
        ),
      )

  laid-Sound :
      (paths : PathTable) (ends : Blob) (dispatch : List Entry)
      → path_table ir.states ≡ some paths
      → compute_terminate_paths ir.states ≡ some ends
      → compute_event_dispatch ir ≡ some dispatch
      → Sound (laid paths ends dispatch) (parent_of ir.states) (depth_of ir.states)
  unfolding laid
  laid-Sound paths ends dispatch p t d =
      let built : Built (laid paths ends dispatch) ir.states = record {
        count = refl;
        table = paths;
        made = p;
        data_same = refl;
        range_same = refl;
        ends = ends;
        ends_made = t;
        ends_data = refl;
        ends_range = refl;
      } in
      let (filled, terminated) =
        tables_fill (laid paths ends dispatch) ir.states tree few_states built in
      let (out, made, at) = dispatch_lem ir tree few_states few_events in
      let same : out ≡ dispatch = cc in
      record {
        tree = tree;
        inhabited =
            omega (arith, get_elem?-range _ 0 resolved.forest.root, length-frames ir.states);
        paths = filled;
        terminates = terminated;
        rank = rank ir.states;
        rank_le = rank-le ir.states;
        defaults = default_at;
        dispatches = λ s ev hs hev.
            let found = first_handled ir.states ev (chain (parent_of ir.states) s) in
            let (owner, target) =
              entry_of-found found (length ir.states) (chain (parent_of ir.states) s) (λ q slot e.
                first_handled-Known (length ir.states) ir.states ev (chain (parent_of ir.states) s)
                  q slot resolved.known e) in
            (
              (entry_of found).0,
              (entry_of found).1,
              (entry_of found).2,
              subst (λ l. get_elem? l (s * length ir.event_variants + ev) ≡ some (entry_of found))
                  same (at s ev hs hev),
              owner,
              target,
            );
        handles = λ s kind trigger actions target e.
            lookup_handlers-Known (length ir.states) ir.states s kind trigger (actions, target)
              resolved.known e;
        events = length-map (λ (v : EventVariantIr). v.name) ir.event_variants;
        covers = λ s lt.
            let (st, here) = get_elem?-some ir.states s lt in
            (st.depth, get_elem?-map (λ (x : StateIr). x.depth) ir.states s here);
        unarmed =
            λ off s. no_arms ir.states s (resolved.timed (none_left ir.duration_triggers off));
      }
    where
      none_left : (ds : List DurationTrigger) → not (is_empty ds) ≡ false → length ds ≡ 0
      none_left [] h = refl
      none_left (x ∷ xs) h = cc

  -- A chart that `generate` lays out for states whose targets are resolved and whose defaults end has
  -- the tables that the machine relies on.
  pub generate-Sound :
      generate as_bytes value ir ≡ some env.chart
      → Sound env (parent_of ir.states) (depth_of ir.states)
  unfolding generate laid
  generate-Sound h =
      let (paths, p, h1) = >>=-eq-some (path_table ir.states) _ h in
      let (ends, t, h2) = >>=-eq-some (compute_terminate_paths ir.states) _ h1 in
      let (dispatch, d, h3) = >>=-eq-some (compute_event_dispatch ir) _ h2 in
      let same : lay_out as_bytes value ir paths ends dispatch ≡ env.chart = cc in
      subst
        (λ (c : Chart). Sound (record env { chart = c }) (parent_of ir.states) (depth_of ir.states))
        same (laid-Sound paths ends dispatch p t d)
