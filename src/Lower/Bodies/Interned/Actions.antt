-- ===== src/Lower/Bodies/Interned/Actions.antt =====
-- `intern_action_unit` and `intern_action_with_params` of hsmc-macros/src/ir.rs: the id of an action.
use Prim.Native.String.{String}
use text.Mathlib.Text.{◌==◌ as str_eq}
use text.Mathlib.TextEquality.{eq_iff}
use hsmc.Input.{PayloadField, PayloadKind}
use hsmc.Ir.{Ir, ActionIr, as_u16}
use hsmc.Lower.{index_of}
use hsmc.Lower.Interning.{intern_action_unit, intern_action_with_params, bind_variant}
use hsmc.Prelude.{
  ℕ, zero, suc, ◌≡◌, ◌∙◌, ap, sym, subst, refl, inl, inr, some, Option-cases, List, [], ◌∷◌, ◌++◌,
  append-nil, map, length, get_elem?, set, arith,
}
use hsmc.Refusal.{accepted}
use hsmc.Lower.Bodies.Interned.{Tables, action_name, tables, Fits, Prefix, Extends, Prefix-refl}
use hsmc.Lower.Bodies.Interned.Entries.{
  index_of-found, map-at, map-set, map-snoc, small_id, last_id,
}

-- An action that is interned: no other table changes, and the id stands for the name.
pub record IsAction (i : String) (ir : Ir) (r : Ir × ℕ) : Type 0 where
  pub grown : Extends (tables ir) (tables r.0)
  pub same_states : r.0.states ≡ ir.states
  pub stands : Fits (tables r.0) → get_elem? (tables r.0).actions r.1 ≡ some i

-- Only the actions grow.
Extends-actions :
    (t : Tables) (xs : List String) → Prefix t.actions xs → Extends t (record t { actions = xs })
Extends-actions t xs more = record {
  same_chart = refl;
  more_actions = more;
  more_events = Prefix-refl t.events;
  more_durations = Prefix-refl t.durations;
  indexed = λ h. h;
}

new-IsAction :
    (a : ActionIr) (ir : Ir)
    → IsAction a.name ir (record ir { actions = ir.actions ++ a ∷ [] }, as_u16 (length ir.actions))
new-IsAction a ir = record {
  grown =
      Extends-actions (tables ir) (map action_name (ir.actions ++ a ∷ []))
        (a.name ∷ [], map-snoc action_name ir.actions a);
  same_states = refl;
  stands = λ fits. last_id action_name ir.actions a fits.actions_fit;
}

-- An entry that is rewritten keeps its name.
old-IsAction :
    (i : String) (ir : Ir) (p : ℕ) (a b : ActionIr)
    → index_of (λ (x : ActionIr). str_eq x.name i) 0 ir.actions ≡ some p
    → get_elem? ir.actions p ≡ some a
    → b.name ≡ a.name
    → IsAction i ir (record ir { actions = set ir.actions p b }, as_u16 p)
old-IsAction i ir p a b found at kept =
    let (j, x, e, here, same) =
      index_of-found (λ (x : ActionIr). str_eq x.name i) 0 ir.actions found in
    let names : map action_name (set ir.actions p b) ≡ map action_name ir.actions =
      map-set action_name ir.actions p a b at kept in
    let called : x.name ≡ i = (eq_iff x.name i).0 same in
    record {
      grown =
          Extends-actions (tables ir) (map action_name (set ir.actions p b))
            ([], names ∙ sym (append-nil (map action_name ir.actions)));
      same_states = refl;
      stands = λ fits.
          let size = ap length names in
          rw names (
            small_id (map action_name ir.actions) j p (omega (arith, size, fits.actions_fit)) e
              (map-at action_name ir.actions j here ∙ ap (λ n. some n) called));
    }

set-same : {A : Type 0} (xs : List A) (i : ℕ) {a : A} → get_elem? xs i ≡ some a → set xs i a ≡ xs
set-same [] i h = cc
set-same (x ∷ xs) zero h = let same : x ≡ _ = cc in ap (λ y. y ∷ xs) (sym same)
set-same (x ∷ xs) (suc i) h = ap (λ l. x ∷ l) (set-same xs i h)

pub intern_action_unit-IsAction :
    (i : String) (ir : Ir) {r : Ir × ℕ} → intern_action_unit i ir ≡ accepted r → IsAction i ir r
unfolding intern_action_unit
intern_action_unit-IsAction i ir {r} h =
    elim (Option-cases (index_of (λ (x : ActionIr). str_eq x.name i) 0 ir.actions)) [
      | inl missing ↦
          let new : ActionIr = record { name = i; params = []; bound_variants = [] } in
          let same : (record ir { actions = ir.actions ++ new ∷ [] }, as_u16 (length ir.actions))
              ≡ r =
            ground arith in
          subst (IsAction i ir) same (new-IsAction new ir)
      | inr (p, found) ↦ elim (Option-cases (get_elem? ir.actions p)) [
        | inl out ↦ ground arith
        | inr (a, at) ↦
            let same : (ir, as_u16 p) ≡ r = ground arith in
            let put : record ir { actions = set ir.actions p a } ≡ ir =
              ap (λ l. record ir { actions = l }) (set-same ir.actions p at) in
            subst (IsAction i ir) (ap (λ s. (s, as_u16 p)) put ∙ same)
              (old-IsAction i ir p a a found at refl)
      ]
    ]

bind_variant-name :
    (variant : String) (kind : PayloadKind) (a : ActionIr)
    → (bind_variant variant kind a).name ≡ a.name
bind_variant-name variant kind a = ground arith

pub intern_action_with_params-IsAction :
    (i : String) (params : List PayloadField) (variant : String) (kind : PayloadKind) (ir : Ir)
    {r : Ir × ℕ}
    → intern_action_with_params i params variant kind ir ≡ accepted r
    → IsAction i ir r
unfolding intern_action_with_params
intern_action_with_params-IsAction i params variant kind ir {r} h =
    elim (Option-cases (index_of (λ (x : ActionIr). str_eq x.name i) 0 ir.actions)) [
      | inl missing ↦
          let new : ActionIr = record {
            name = i;
            params = params;
            bound_variants = record { name = variant; kind = kind } ∷ [];
          } in
          let same : (record ir { actions = ir.actions ++ new ∷ [] }, as_u16 (length ir.actions))
              ≡ r =
            ground arith in
          subst (IsAction i ir) same (new-IsAction new ir)
      | inr (p, found) ↦ elim (Option-cases (get_elem? ir.actions p)) [
        | inl out ↦ ground arith
        | inr (a, at) ↦
            let b = bind_variant variant kind a in
            let same : (record ir { actions = set ir.actions p b }, as_u16 p) ≡ r = ground arith in
            subst (IsAction i ir) same
              (old-IsAction i ir p a b found at (bind_variant-name variant kind a))
      ]
    ]
