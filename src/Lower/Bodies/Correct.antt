-- ===== src/Lower/Bodies/Correct.antt =====
-- What `build_ir` of hsmc-macros/src/ir.rs makes of a parsed tree whose depths fit a `u8` and whose
-- state ids fit a `u16`.
use Prim.Native.String.{String}
use hsmc.Codegen.Walks.Tree.{IsTree}
use hsmc.Input.{Items, StatechartInput}
use hsmc.Ir.{Ir, StateIr, parent_of, depth_of}
use hsmc.Lower.{alloc_state}
use hsmc.Lower.Interning.{intern_event}
use hsmc.Lower.Bodies.{
  lower_body, build_ir, empty_ir, items_of, intern_terminate, collect_state_names,
}
use hsmc.Lower.Bodies.Forest.{
  Frame, frame, frames, IsForest, IsForest-IsTree, frames-at, frames-names,
}
use hsmc.Lower.Bodies.Keeps.{IsOpen, IsTimed, Keeps, Keeps-refl}
use hsmc.Lower.Bodies.Keeps.Passes.{intern_event-Keeps}
use hsmc.Prelude.{
  ℕ, zero, suc, ◌+◌, ◌<◌, ◌≤◌, ◌≡◌, ap, sym, subst, refl, inl, inr, Option, none, some,
  Option-cases, [], ◌∷◌, ◌++◌, ◌∙◌, map, append-nil, length, get_elem?, All, arith,
}
use hsmc.Refusal.{accepted, >>=-eq-accepted}
use hsmc.Lower.Bodies.Grows.{nesting, state_count, Grows, Grows-trans, Keeps-Grows, Grows-length}
use hsmc.Lower.Bodies.Grows.Below.{lower_body-Grows}

-- The root alone is a forest.
root-IsForest :
    (name : String) (items : Items) (context : String)
    → IsForest (frames (alloc_state "__Root" none 0 (empty_ir name items context)).states)
unfolding alloc_state
root-IsForest name items context = record {
  name = "__Root";
  root = refl;
  indexed = λ s f e. only s f e;
  hangs = λ s f e. cc;
}
  where
    only :
        (s : ℕ) (f : Frame)
        → get_elem? (record { id = 0; name = "__Root"; parent = none; depth = 0 } ∷ []) s ≡ some f
        → f.id ≡ s
    only zero f e =
        let same : record { id = 0; name = "__Root"; parent = none; depth = 0 } ≡ f = cc in
        sym (ap (λ (g : Frame). g.id) same)
    only (suc s) f e = cc

root-length :
    (name : String) (items : Items) (context : String)
    → length (alloc_state "__Root" none 0 (empty_ir name items context)).states ≡ 1
unfolding alloc_state
root-length name items context = refl

root-IsTimed :
    (name : String) (items : Items) (context : String)
    → IsTimed (alloc_state "__Root" none 0 (empty_ir name items context))
unfolding alloc_state
root-IsTimed name items context = λ none_left. (refl, tt)

root-IsOpen :
    (name : String) (items : Items) (context : String)
    → All IsOpen (alloc_state "__Root" none 0 (empty_ir name items context)).states
unfolding alloc_state
root-IsOpen name items context = ((tt, refl), tt)

intern_terminate-Keeps :
    (t : Option String) (ir : Ir) {ir' : Ir} → intern_terminate t ir ≡ accepted ir' → Keeps ir ir'
intern_terminate-Keeps none ir h = let same : ir ≡ _ = cc in subst (Keeps ir) same (Keeps-refl ir)
intern_terminate-Keeps (some t) ir h =
    let (q, one, h1) = >>=-eq-accepted (intern_event t none ir) _ h in
    let same : q.0 ≡ _ = cc in subst (Keeps ir) same (intern_event-Keeps t none ir one)

-- What the lowering makes: a tree of states by their index, whose targets are still names.
pub record IsLowered (ir : Ir) : Type 0 where
  pub forest : IsForest (frames ir.states)
  pub timed : IsTimed ir
  pub open_states : All IsOpen ir.states

abbrev pub state_name : StateIr → String
state_name st = st.name

-- The names of the states that grew on the root.
named_states :
    (input : StatechartInput) (items : Items) (context : String) {ir : Ir} {n : ℕ}
    → Grows
        (alloc_state "__Root" none 0 (empty_ir input.name items context))
        ir
        n
        (collect_state_names input.root ++ [])
    → map state_name ir.states ≡ "__Root" ∷ collect_state_names input.root
unfolding alloc_state
named_states input items context {ir} grown =
    sym (frames-names ir.states)
    ∙ ap (map (λ (f : Frame). f.name)) grown.framed
    ∙ ap (λ l. "__Root" ∷ l) (grown.named ∙ append-nil (collect_state_names input.root))

pub build_ir-Grows :
    (input : StatechartInput) {ir : Ir}
    → nesting input.root < 256
    → 1 + state_count input.root ≤ 65536
    → build_ir input ≡ accepted ir
    → IsLowered ir
      × (length ir.states ≡ 1 + state_count input.root)
      × (map state_name ir.states ≡ "__Root" ∷ collect_state_names input.root)
unfolding build_ir
build_ir-Grows input {ir} shallow few h = elim (Option-cases (items_of input.root).context_ty) [
  | inl none_given ↦ ground arith
  | inr (context, e) ↦
      let items = items_of input.root in
      let start = alloc_state "__Root" none 0 (empty_ir input.name items context) in
      let (a, lowered, h1) =
        >>=-eq-accepted
          (lower_body (input.name ∷ collect_state_names input.root) 0 input.root start) _
          (rw (e, build_ir) at h) in
      let planted = root-IsForest input.name items context in
      let body_grows =
        lower_body-Grows (input.name ∷ collect_state_names input.root) 0 input.root start
          (record { id = 0; name = planted.name; parent = none; depth = 0 }) planted planted.root
          (omega arith) (omega (arith, root-length input.name items context)) lowered in
      let all =
        Grows-trans body_grows
          (Keeps-Grows body_grows.forest (intern_terminate-Keeps items.terminate a h1)) in
      (
        record {
          forest = all.forest;
          timed = all.timed (root-IsTimed input.name items context);
          open_states = all.open_states (root-IsOpen input.name items context);
        },
        omega (arith, Grows-length all, root-length input.name items context),
        named_states input items context all,
      )
]

-- The states that the lowering allocates for a parsed tree are those of a tree: one for the root and
-- one for every state that is declared, with their indexes as ids. They go by the name of the root
-- and by the declared names, in the order of the source.
pub build_ir-IsTree :
    (input : StatechartInput) (ir : Ir)
    → nesting input.root < 256
    → 1 + state_count input.root ≤ 65536
    → build_ir input ≡ accepted ir
    → IsTree (1 + state_count input.root) (parent_of ir.states) (depth_of ir.states)
      × (length ir.states ≡ 1 + state_count input.root)
      × ((s : ℕ) (st : StateIr) → get_elem? ir.states s ≡ some st → st.id ≡ s)
      × (map state_name ir.states ≡ "__Root" ∷ collect_state_names input.root)
build_ir-IsTree input ir shallow few h =
    let (lowered, size, named) = build_ir-Grows input shallow few h in
    (
      subst (λ (n : ℕ). IsTree n (parent_of ir.states) (depth_of ir.states)) size
          (IsForest-IsTree ir.states lowered.forest),
      size,
      λ s st at. lowered.forest.indexed s (frame st) (frames-at ir.states s at),
      named,
    )
