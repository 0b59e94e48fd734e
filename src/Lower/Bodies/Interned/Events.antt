-- ===== src/Lower/Bodies/Interned/Events.antt =====
-- `intern_event` of hsmc-macros/src/ir.rs: the id of an event.
use Prim.Native.String.{String}
use text.Mathlib.Text.{◌==◌ as str_eq}
use text.Mathlib.TextEquality.{eq_iff}
use hsmc.Input.{EventPayload}
use hsmc.Ir.{Ir, EventVariantIr, VariantKind, as_u16}
use hsmc.Lower.{index_of}
use hsmc.Lower.Interning.{intern_event, merge_kind, kind_of_payload, fields_of_payload}
use hsmc.Prelude.{
  ℕ, ◌≡◌, ◌∙◌, ap, sym, subst, refl, inl, inr, Option, some, Option-cases, List, [], ◌∷◌, ◌++◌,
  append-nil, map, length, get_elem?, set, arith,
}
use hsmc.Refusal.{accepted, >>=-eq-accepted}
use hsmc.Lower.Bodies.Interned.{Tables, event_name, tables, Fits, Prefix, Extends, Prefix-refl}
use hsmc.Lower.Bodies.Interned.Entries.{
  index_of-found, map-at, map-set, map-snoc, small_id, last_id,
}

-- An event that is interned.
pub record IsInterned (i : String) (ir : Ir) (r : Ir × ℕ) : Type 0 where
  pub grown : Extends (tables ir) (tables r.0)
  pub same_states : r.0.states ≡ ir.states
  pub stands : Fits (tables r.0) → get_elem? (tables r.0).events r.1 ≡ some i

merge_kind-name :
    (i : String) (old : EventVariantIr) (k l : VariantKind) (count : Option ℕ) {m : EventVariantIr}
    → merge_kind i old k l count ≡ accepted m
    → m.name ≡ old.name
merge_kind-name i old VariantKind.unit VariantKind.unit count h = ground arith
merge_kind-name i old VariantKind.unit VariantKind.tuple count h = ground arith
merge_kind-name i old VariantKind.unit VariantKind.struct count h = ground arith
merge_kind-name i old VariantKind.tuple VariantKind.tuple count h = ground arith
merge_kind-name i old VariantKind.struct VariantKind.struct count h = ground arith
merge_kind-name i old VariantKind.tuple VariantKind.unit count h = ground arith
merge_kind-name i old VariantKind.struct VariantKind.unit count h = ground arith
merge_kind-name i old VariantKind.tuple VariantKind.struct count h = cc
merge_kind-name i old VariantKind.struct VariantKind.tuple count h = cc

Extends-events :
    (t : Tables) (xs : List String) → Prefix t.events xs → Extends t (record t { events = xs })
Extends-events t xs more = record {
  same_chart = refl;
  more_actions = Prefix-refl t.actions;
  more_events = more;
  more_durations = Prefix-refl t.durations;
  indexed = λ h. h;
}

-- An entry that is rewritten keeps its name.
old-IsInterned :
    (i : String) (ir : Ir) (p : ℕ) (a b : EventVariantIr)
    → index_of (λ (x : EventVariantIr). str_eq x.name i) 0 ir.event_variants ≡ some p
    → get_elem? ir.event_variants p ≡ some a
    → b.name ≡ a.name
    → IsInterned i ir (record ir { event_variants = set ir.event_variants p b }, as_u16 p)
old-IsInterned i ir p a b found at kept =
    let (j, x, e, here, same) =
      index_of-found (λ (x : EventVariantIr). str_eq x.name i) 0 ir.event_variants found in
    let names : map event_name (set ir.event_variants p b) ≡ map event_name ir.event_variants =
      map-set event_name ir.event_variants p a b at kept in
    let called : x.name ≡ i = (eq_iff x.name i).0 same in
    record {
      grown =
          Extends-events (tables ir) (map event_name (set ir.event_variants p b))
            ([], names ∙ sym (append-nil (map event_name ir.event_variants)));
      same_states = refl;
      stands = λ fits.
          let size = ap length names in
          rw names (
            small_id (map event_name ir.event_variants) j p (omega (arith, size, fits.events_fit)) e
              (map-at event_name ir.event_variants j here ∙ ap (λ n. some n) called));
    }

pub intern_event-IsInterned :
    (i : String) (payload : Option EventPayload) (ir : Ir) {r : Ir × ℕ}
    → intern_event i payload ir ≡ accepted r
    → IsInterned i ir r
unfolding intern_event
intern_event-IsInterned i payload ir {r} h =
    elim (Option-cases (index_of (λ (x : EventVariantIr). str_eq x.name i) 0 ir.event_variants)) [
      | inl missing ↦
          let new : EventVariantIr = record {
            name = i;
            kind = kind_of_payload payload;
            field_count = fields_of_payload payload;
          } in
          let same : (
            record ir { event_variants = ir.event_variants ++ new ∷ [] },
            as_u16 (length ir.event_variants),
          )
              ≡ r =
            ground arith in
          subst (IsInterned i ir) same (record {
            grown =
                Extends-events (tables ir) (map event_name (ir.event_variants ++ new ∷ []))
                  (i ∷ [], map-snoc event_name ir.event_variants new);
            same_states = refl;
            stands = λ fits. last_id event_name ir.event_variants new fits.events_fit;
          })
      | inr (p, found) ↦ elim (Option-cases (get_elem? ir.event_variants p)) [
        | inl out ↦ ground arith
        | inr (old, at) ↦
            let (m, merged, last) =
              >>=-eq-accepted
                (merge_kind i old old.kind (kind_of_payload payload) (fields_of_payload payload)) _
                (rw (found, at, intern_event) at h) in
            let same : (record ir { event_variants = set ir.event_variants p m }, as_u16 p) ≡ r =
              cc in
            subst (IsInterned i ir) same (
              old-IsInterned i ir p old m found at (
                merge_kind-name i old old.kind (kind_of_payload payload) (fields_of_payload payload)
                  merged))
      ]
    ]
