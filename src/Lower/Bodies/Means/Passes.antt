-- ===== src/Lower/Bodies/Means/Passes.antt =====
-- The passes over the items of a body (hsmc-macros/src/ir.rs), up to `lower_items`: what they write stands
-- for the items.
use Prim.Native.String.{String}
use hsmc.Ir.{Ir, StateIr, TriggerIr, HandlerKindIr}
use hsmc.Lower.{edit_state}
use hsmc.Lower.Bodies.{
  classify_target, intern_all, intern_handler, check_every, check_payload, has_name,
}
use hsmc.Lower.Bodies.Interned.{
  tables, Fits, Extends, Extends-refl, Extends-trans, Extends-Fits, Prefix-at,
}
use hsmc.Lower.Bodies.Interned.Actions.{
  IsAction, intern_action_unit-IsAction, intern_action_with_params-IsAction,
}
use hsmc.Lower.Bodies.Keeps.{edit_state-eq}
use hsmc.Lower.Bodies.Means.{Stand, KindMeans}
use hsmc.Lower.Interning.{intern_action_unit}
use hsmc.Prelude.{
  ℕ, zero, suc, ◌≡◌, ◌≢◌, ◌∙◌, ap, sym, subst, refl, Bool-cases, inl, inr, none, some, List, [],
  ◌∷◌, get_elem?, set,
}
use hsmc.Refusal.{accepted, >>=-eq-accepted}

get_elem?-set_self :
    (xs : List StateIr) (i : ℕ) (new : StateIr) {old : StateIr}
    → get_elem? xs i ≡ some old
    → get_elem? (set xs i new) i ≡ some new
get_elem?-set_self [] i new h = cc
get_elem?-set_self (x ∷ xs) zero new h = refl
get_elem?-set_self (x ∷ xs) (suc i) new h = get_elem?-set_self xs i new h

get_elem?-set_other :
    (xs : List StateIr) (i j : ℕ) (new : StateIr)
    → j ≢ i
    → get_elem? (set xs i new) j ≡ get_elem? xs j
get_elem?-set_other [] i j new h = refl
get_elem?-set_other (x ∷ xs) zero zero new h = absurd (h refl)
get_elem?-set_other (x ∷ xs) zero (suc j) new h = refl
get_elem?-set_other (x ∷ xs) (suc i) zero new h = refl
get_elem?-set_other (x ∷ xs) (suc i) (suc j) new h =
    get_elem?-set_other xs i j new (λ e. h (ap suc e))

-- The tables grow, and only the state `sid` may change.
pub record Pass (sid : ℕ) (ir ir' : Ir) : Type 0 where
  pub grown : Extends (tables ir) (tables ir')
  pub others :
      (i : ℕ) (st : StateIr)
      → i ≢ sid
      → get_elem? ir.states i ≡ some st
      → get_elem? ir'.states i ≡ some st

pub Pass-trans : {sid : ℕ} {a b c : Ir} → Pass sid a b → Pass sid b c → Pass sid a c
Pass-trans h k = record {
  grown = Extends-trans h.grown k.grown;
  others = λ i st differ at. k.others i st differ (h.others i st differ at);
}

pub Pass-same :
    {sid : ℕ} {a b : Ir} → Extends (tables a) (tables b) → b.states ≡ a.states → Pass sid a b
Pass-same g s = record { grown = g; others = λ i st differ at. ap (λ l. get_elem? l i) s ∙ at }

pub edit_state-Pass :
    (sid : ℕ) (f : StateIr → StateIr) (ir : Ir) {ir' : Ir} {st : StateIr}
    → edit_state sid f ir ≡ accepted ir'
    → get_elem? ir.states sid ≡ some st
    → Pass sid ir ir' × (get_elem? ir'.states sid ≡ some (f st))
edit_state-Pass sid f ir {ir'} {st} h at =
    let (old, here, same) = edit_state-eq sid f ir h in
    let is_st : old ≡ st = cc in
    subst (λ (q : Ir). Pass sid ir q × (get_elem? q.states sid ≡ some (f st))) same
      (subst
        (λ (s : StateIr).
          Pass sid ir (record ir { states = set ir.states sid (f s) })
          × (get_elem? (set ir.states sid (f s)) sid ≡ some (f st)))
        (sym is_st)
        (
          record {
            grown = Extends-refl (tables ir);
            others = λ i s differ e. get_elem?-set_other ir.states sid i (f st) differ ∙ e;
          },
          get_elem?-set_self ir.states sid (f st) at,
        ))

-- The ids of a list of actions that are interned.
pub record AreActions (names : List String) (ir : Ir) (r : Ir × List ℕ) : Type 0 where
  pub grown : Extends (tables ir) (tables r.0)
  pub same_states : r.0.states ≡ ir.states
  pub stand : Fits (tables r.0) → Stand (tables r.0).actions r.1 names

pub intern_all-AreActions :
    (is : List String) (ir : Ir) {r : Ir × List ℕ}
    → intern_all is ir ≡ accepted r
    → AreActions is ir r
unfolding intern_all
intern_all-AreActions [] ir {r} h =
    let same : (ir, []) ≡ r = cc in
    subst (AreActions [] ir) same
      (record { grown = Extends-refl (tables ir); same_states = refl; stand = λ fits. tt })
intern_all-AreActions (i ∷ rest) ir {r} h =
    let (q, one, h1) = >>=-eq-accepted (intern_action_unit i ir) _ h in
    let (more, all, h2) = >>=-eq-accepted (intern_all rest q.0) _ h1 in
    let same : (more.0, q.1 ∷ more.1) ≡ r = cc in
    let first = intern_action_unit-IsAction i ir one in
    let others = intern_all-AreActions rest q.0 all in
    subst (AreActions (i ∷ rest) ir) same (record {
      grown = Extends-trans first.grown others.grown;
      same_states = others.same_states ∙ first.same_states;
      stand = λ fits. (
        Prefix-at (tables q.0).actions (tables more.0).actions q.1 others.grown.more_actions
            (first.stands (Extends-Fits others.grown fits)),
        others.stand fits,
      );
    })

intern_handler-IsAction :
    (target : String) (trig : TriggerIr) (ir : Ir) {r : Ir × ℕ}
    → intern_handler target trig ir ≡ accepted r
    → IsAction target ir r
intern_handler-IsAction target (TriggerIr.event id variant (some payload)) ir h =
    intern_action_with_params-IsAction target payload.fields variant payload.kind ir h
intern_handler-IsAction target (TriggerIr.event id variant none) ir h =
    intern_action_unit-IsAction target ir h
intern_handler-IsAction target (TriggerIr.duration id) ir h =
    intern_action_unit-IsAction target ir h

-- A target that is classified.
pub record IsKind (names : List String) (target : String) (ir : Ir) (r : Ir × HandlerKindIr)
    : Type 0 where
  pub grown : Extends (tables ir) (tables r.0)
  pub same_states : r.0.states ≡ ir.states
  pub means : Fits (tables r.0) → KindMeans (tables r.0) names target r.1

pub classify_target-IsKind :
    (names : List String) (target : String) (trig : TriggerIr) (ir : Ir) {r : Ir × HandlerKindIr}
    → classify_target names target trig ir ≡ accepted r
    → IsKind names target ir r
unfolding classify_target
classify_target-IsKind names target trig ir {r} h = elim (Bool-cases (has_name target names)) [
  | inl state ↦
      let (u, once, h1) = >>=-eq-accepted (check_every target trig ir) _ (rw state at h) in
      let (v, bare, h2) = >>=-eq-accepted (check_payload trig) _ h1 in
      let same : (ir, HandlerKindIr.transition target none) ≡ r = cc in
      subst (IsKind names target ir) same (record {
        grown = Extends-refl (tables ir);
        same_states = refl;
        means = λ fits. (state, refl);
      })
  | inr handler ↦
      let (q, run, h1) = >>=-eq-accepted (intern_handler target trig ir) _ (rw handler at h) in
      let same : (q.0, HandlerKindIr.action q.1 target) ≡ r = cc in
      let interned = intern_handler-IsAction target trig ir run in
      subst (IsKind names target ir) same (record {
        grown = interned.grown;
        same_states = interned.same_states;
        means = λ fits. (handler, refl, interned.stands fits);
      })
]
