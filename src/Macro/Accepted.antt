-- ===== src/Macro/Accepted.antt =====
-- The charts that `statechart_impl` of hsmc-macros/src/lib.rs accepts, and the machines of them.
use Prim.Native.String.{String}
use hsmc.Codegen.Generate.{generate, lay_out}
use hsmc.Codegen.Tables.{path_table, compute_terminate_paths}
use hsmc.Codegen.Dispatch.{compute_event_dispatch}
use hsmc.Codegen.Generate.Sound.{generate-Sound}
use hsmc.Input.{StatechartInput}
use hsmc.Ir.{Ir, StateIr, parent_of, depth_of}
use hsmc.Journal.Replay.{replay}
use hsmc.Lower.Bodies.{build_ir}
use hsmc.Lower.Bodies.Grows.{nesting, state_count}
use hsmc.Lower.Bodies.Correct.{state_name, build_ir-Grows}
use hsmc.Lower.Bodies.{collect_state_names}
use hsmc.Lower.Bodies.Forest.{Frame, frames-names}
use hsmc.Lower.Resolve.{resolve_transitions}
use hsmc.Lower.Resolve.Targets.{IsKnown, IsResolved, resolve_transitions-IsResolved}
use hsmc.Machine.{Chart, Env, Machine, new}
use hsmc.Machine.Sound.{Sound, IsSound, IsTarget, path_of}
use hsmc.Machine.Sound.Runs.{Call, calls, calls_lem}
use hsmc.Macro.{or_panic, expand, statechart_impl}
use hsmc.Parse.{parse}
use hsmc.Syn.{Syn, Tokens}
use hsmc.Prelude.{
  ℕ, ◌+◌, ◌<◌, ◌≤◌, ◌≡◌, ◌∙◌, ap, sym, subst, map, ◌∷◌, inl, inr, Option, none, some, Option-cases,
  >>=-eq-some, List, [], length, get_elem?, All-get_elem?, arith,
}
use hsmc.Refusal.{accepted, >>=-eq-accepted}
use hsmc.Validate.{validate, validate_parse_tree}
use hsmc.Validate.Correct.{validate-IsValid}
use hsmc.Validate.Graph.Chase.{next_of, Ends}
use hsmc.Validate.Graph.Correct.{validate_default_graph_lem}

-- A default of a state whose targets are known leads to a state.
pub next_of-known :
    (ir : Ir) → IsResolved ir → (s c : ℕ) → next_of ir.states s ≡ some c → c < length ir.states
unfolding next_of
next_of-known ir h s c e = elim (Option-cases (get_elem? ir.states s)) [
  | inl out ↦ absurd (let gone : none ≡ some c = rw (out, next_of) at e in cc)
  | inr (st, at) ↦
      let known : IsKnown (length ir.states) st =
        All-get_elem? (IsKnown (length ir.states)) ir.states s st h.known at in
      let found : st.default_child ≡ some c = rw (at, next_of) at e in
      subst (IsTarget (length ir.states)) found known.1
]

-- The defaults of a chart that is accepted end.
pub valid-Ends :
    (ir : Ir)
    → IsResolved ir
    → validate ir ≡ accepted tt
    → (s : ℕ) → s < length ir.states
    → (k : ℕ) × Ends ir.states s k × (k < length ir.states)
valid-Ends ir h e = elim (validate_default_graph_lem ir.states (next_of-known ir h)) [
  | inl (fine, ends) ↦ ends
  | inr (names, t, stopped, inside, walk) ↦ absurd (let graph = (validate-IsValid ir e).0 in cc)
]

or_panic-accepted : (o : Option Chart) {c : Chart} → or_panic o ≡ accepted c → o ≡ some c
or_panic-accepted none h = cc
or_panic-accepted (some x) h = cc

generate-events :
    (as_bytes : String → List ℕ) (value : String → ℕ) (ir : Ir) {c : Chart}
    → generate as_bytes value ir ≡ some c
    → c.n_events ≡ length ir.event_variants
unfolding generate
generate-events as_bytes value ir {c} h =
    let (paths, p, h1) = >>=-eq-some (path_table ir.states) _ h in
    let (ends, t, h2) = >>=-eq-some (compute_terminate_paths ir.states) _ h1 in
    let (dispatch, d, h3) = >>=-eq-some (compute_event_dispatch ir) _ h2 in
    let same : lay_out as_bytes value ir paths ends dispatch ≡ c = cc in
    ap (λ (x : Chart). x.n_events) (sym same)

module _ {Ev Ctx : Type 0} (env : Env Ev Ctx) (as_bytes : String → List ℕ) (value : String → ℕ)
    (parsed : StatechartInput) (shallow : nesting parsed.root < 256)
    (few_states : 1 + state_count parsed.root < 65536) (few_events : env.n_events < 65536) where
  -- The tables of a chart that is accepted are what the machine relies on, for a tree of the states
  -- that are declared, which go by the declared names.
  expand-Sound :
      expand as_bytes value parsed ≡ accepted env.chart
      → (states : List StateIr) × Sound env (parent_of states) (depth_of states)
        × (length states ≡ 1 + state_count parsed.root)
        × (map state_name states ≡ "__Root" ∷ collect_state_names parsed.root)
  unfolding expand
  expand-Sound h =
      let (tree, parsed_ok, h1) = >>=-eq-accepted (validate_parse_tree parsed) _ h in
      let (low, lowered, h2) = >>=-eq-accepted (build_ir parsed) _ h1 in
      let (ir, resolved, h3) = >>=-eq-accepted (resolve_transitions low) _ h2 in
      let (valid, checked, h4) = >>=-eq-accepted (validate ir) _ h3 in
      let made : generate as_bytes value ir ≡ some env.chart =
        or_panic-accepted (generate as_bytes value ir) h4 in
      let (is_lowered, size, named) = build_ir-Grows parsed shallow (omega arith) lowered in
      let (is_resolved, same_size, same_frames) =
        resolve_transitions-IsResolved low ir is_lowered resolved in
      let events = generate-events as_bytes value ir made in
      (
        ir.states,
        generate-Sound env as_bytes value ir is_resolved (valid-Ends ir is_resolved checked)
            (omega (arith, size, same_size)) (omega (arith, events)) made,
        same_size ∙ size,
        sym (frames-names ir.states)
            ∙ ap (map (λ (f : Frame). f.name)) same_frames
            ∙ frames-names low.states
            ∙ named,
      )

  -- `statechart_impl` accepts tokens that are read as a tree of at most 255 levels, fewer than 65535
  -- declared states and fewer than 65536 events only with tables for the declared states, in the order
  -- of the source, on which the machine is safe: any sequence of steps and sends on a new machine of the
  -- chart returns without an access out of bounds, its whole journal replays from the empty path to its
  -- active path, and its queue is within the capacity.
  pub statechart_impl-runs :
      (syn : Syn) (input : Tokens)
      → parse syn input ≡ accepted parsed
      → statechart_impl syn as_bytes value input ≡ accepted env.chart
      → (states : List StateIr) × (length states ≡ 1 + state_count parsed.root)
        × (map state_name states ≡ "__Root" ∷ collect_state_names parsed.root)
        × ((ctx : Ctx) (cs : List (Call Ev))
            → (m : Machine Ev Ctx) × (calls env cs (new ctx) ≡ some m)
              × IsSound env (parent_of states) m
              × (replay (parent_of states) [] m.journal ≡ some (path_of env (parent_of states) m))
              × (length m.queue ≤ env.queue_capacity))
  unfolding statechart_impl
  statechart_impl-runs syn input read h =
      let (tree, read', expanded) = >>=-eq-accepted (parse syn input) _ h in
      let same : tree ≡ parsed = cc in
      let (states, sound, size, named) =
        expand-Sound (subst (λ p. expand as_bytes value p ≡ accepted env.chart) same expanded) in
      (states, size, named, λ ctx cs. calls_lem sound ctx cs)
