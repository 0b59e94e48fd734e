-- ===== src/Lower/Bodies/Means/Whole.antt =====
-- `build_ir` of hsmc-macros/src/ir.rs: the states stand for the parsed tree.
use hsmc.Lower.Bodies.Means.Recursion.{HasBody, lower_body-HasBody}
use Prim.Native.String.{String}
use hsmc.Input.{StateBody, StatechartInput}
use hsmc.Ir.{Ir, StateIr}
use hsmc.Lower.{alloc_state, fresh_state}
use hsmc.Lower.Bodies.{
  lower_body, build_ir, empty_ir, items_of, intern_terminate, collect_state_names,
}
use hsmc.Lower.Bodies.Interned.{tables, Fits, Extends-Fits, IsIndexed}
use hsmc.Lower.Bodies.Interned.Events.{intern_event-IsInterned}
use hsmc.Lower.Bodies.Means.{BodyMeans, BodyMeans-Stay}
use hsmc.Lower.Interning.{intern_event}
use hsmc.Prelude.{
  ◌≤◌, ◌≡◌, ◌∙◌, ap, sym, subst, refl, inl, inr, Option, none, some, Option-cases, List, ◌∷◌,
  length, get_elem?, arith,
}
use hsmc.Refusal.{accepted, >>=-eq-accepted}

intern_terminate-states :
    (o : Option String) (ir : Ir) {ir' : Ir}
    → intern_terminate o ir ≡ accepted ir'
    → ir'.states ≡ ir.states
intern_terminate-states none ir {ir'} h =
    let same : ir ≡ ir' = cc in ap (λ (q : Ir). q.states) (sym same)
intern_terminate-states (some t) ir {ir'} h =
    let (r, interned, e) = >>=-eq-accepted (intern_event t none ir) _ h in
    let same : r.0 ≡ ir' = cc in
    ap (λ (q : Ir). q.states) (sym same) ∙ (intern_event-IsInterned t none ir interned).same_states

intern_terminate-BodyMeans :
    (names : List String) (b : StateBody) (o : Option String) (ir : Ir) {ir' : Ir}
    → intern_terminate o ir ≡ accepted ir'
    → (Fits (tables ir) → BodyMeans (tables ir) names ir.states 0 b)
    → Fits (tables ir')
    → BodyMeans (tables ir') names ir'.states 0 b
intern_terminate-BodyMeans names b none ir {ir'} h means fits =
    let same : ir ≡ ir' = cc in
    subst (λ (q : Ir). Fits (tables q) → BodyMeans (tables q) names q.states 0 b) same means fits
intern_terminate-BodyMeans names b (some t) ir {ir'} h means fits =
    let (r, interned, e) = >>=-eq-accepted (intern_event t none ir) _ h in
    let same : r.0 ≡ ir' = cc in
    let own = intern_event-IsInterned t none ir interned in
    let fits_r = subst (λ (q : Ir). Fits (tables q)) (sym same) fits in
    subst (λ (q : Ir). BodyMeans (tables q) names q.states 0 b) same
      (BodyMeans-Stay names ir.states r.0.states own.grown 0 b
        (λ i s bound e. ap (λ l. get_elem? l i) own.same_states ∙ e)
        (means (Extends-Fits own.grown fits_r)))

intern_terminate-chart :
    (o : Option String) (ir : Ir) {ir' : Ir}
    → intern_terminate o ir ≡ accepted ir'
    → ir'.name ≡ ir.name
intern_terminate-chart none ir {ir'} h =
    let same : ir ≡ ir' = cc in ap (λ (q : Ir). q.name) (sym same)
intern_terminate-chart (some t) ir {ir'} h =
    let (r, interned, e) = >>=-eq-accepted (intern_event t none ir) _ h in
    let same : r.0 ≡ ir' = cc in
    ap (λ (q : Ir). q.name) (sym same)
    ∙ (intern_event-IsInterned t none ir interned).grown.same_chart

-- What the root's body makes, before the event that terminates is interned.
build_ir-HasBody :
    (input : StatechartInput) (ir : Ir)
    → length ir.states ≤ 65536
    → build_ir input ≡ accepted ir
    → (start a : Ir) × (root : StateIr) × (start.name ≡ input.name)
      × IsIndexed start.duration_triggers
      × HasBody (input.name ∷ collect_state_names input.root) 0 input.root start root a
      × (intern_terminate (items_of input.root).terminate a ≡ accepted ir)
unfolding build_ir alloc_state
build_ir-HasBody input ir few h = elim (Option-cases (items_of input.root).context_ty) [
  | inl none_given ↦ ground arith
  | inr (context, e) ↦
      let items = items_of input.root in
      let names = input.name ∷ collect_state_names input.root in
      let start = alloc_state "__Root" none 0 (empty_ir input.name items context) in
      let root = fresh_state 0 "__Root" none 0 in
      let (a, lowered, h1) =
        >>=-eq-accepted (lower_body names 0 input.root start) _ (rw (e, build_ir) at h) in
      (
        start,
        a,
        root,
        refl,
        (λ j d at. cc),
        lower_body-HasBody names 0 input.root start root refl refl
            (omega (arith, ap length (intern_terminate-states items.terminate a h1))) lowered,
        h1,
      )
]

pub build_ir-name :
    (input : StatechartInput) (ir : Ir)
    → length ir.states ≤ 65536
    → build_ir input ≡ accepted ir
    → ir.name ≡ input.name
build_ir-name input ir few h =
    let (start, a, root, named, indexed, own, last) = build_ir-HasBody input ir few h in
    intern_terminate-chart (items_of input.root).terminate a last
    ∙ own.pass.grown.same_chart
    ∙ named

-- Read through the tables of names, the states that build_ir makes are the bodies of the parsed tree, if
-- no id overflows a `u16`: state 0 is the root; a state has the entries, exits, durings, default and
-- handlers of its body, in order, where a target is a transition exactly if it is the name of the chart or
-- of a declared state; and its children are those of the body, in order, by their names and with it as
-- their parent, and come after it.
pub build_ir-BodyMeans :
    (input : StatechartInput) (ir : Ir)
    → length ir.states ≤ 65536
    → Fits (tables ir)
    → build_ir input ≡ accepted ir
    → BodyMeans (tables ir) (input.name ∷ collect_state_names input.root) ir.states 0 input.root
build_ir-BodyMeans input ir few fits h =
    let (start, a, root, named, indexed, own, last) = build_ir-HasBody input ir few h in
    intern_terminate-BodyMeans (input.name ∷ collect_state_names input.root) input.root
      (items_of input.root).terminate a last (λ small. own.means small indexed) fits
