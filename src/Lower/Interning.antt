-- ===== src/Lower/Interning.antt =====
-- The interning of actions, events and durations in hsmc-macros/src/ir.rs: a name is looked up in the
-- table of its kind, and appended if it is new; the answer is its index as a `u16`.
use Prim.Native.String.{String, ◌++◌ as joined}
use text.Mathlib.Text.{◌==◌ as str_eq}
use hsmc.Input.{EventPayload, PayloadField, PayloadKind}
use hsmc.Ir.{Ir, ActionIr, DurationTrigger, EventVariantIr, VariantKind, as_u16}
use hsmc.Lower.{index_of}
use hsmc.Machine.Actions.{any_bound}
use hsmc.Prelude.{
  ℕ, ◌==◌, Bool, true, false, ◌&&◌, Option, none, some, List, [], ◌∷◌, ◌++◌, if◌then◌else◌, length,
  get_elem?, set,
}
use hsmc.Refusal.{
  Result, accepted, refused, panicked, bound_before, unbound_before, other_shape, other_field_count,
  other_kind, ◌>>=◌,
}

abbrev is_nil {ℓ} : {A : Type ℓ} → List A → Bool
is_nil [] = true
is_nil (x ∷ xs) = false

unfoldable pub intern_action_unit : String → Ir → Result (Ir × ℕ)
intern_action_unit i ir = elim (index_of (λ (a : ActionIr). str_eq a.name i) 0 ir.actions) [
  | some p ↦ elim (get_elem? ir.actions p) [
    | none ↦ refused panicked
    | some a ↦ if is_nil a.params then accepted (ir, as_u16 p) else refused (bound_before i)
  ]
  | none ↦ accepted (
    record ir {
      actions = ir.actions ++ record { name = i; params = []; bound_variants = [] } ∷ [];
    },
    as_u16 (length ir.actions),
  )
]

abbrev pub params_match : List PayloadField → List PayloadField → Bool
params_match [] [] = true
params_match [] (b ∷ bs) = false
params_match (a ∷ as_) [] = false
params_match (a ∷ as_) (b ∷ bs) = str_eq a.name b.name && str_eq a.ty b.ty && params_match as_ bs

-- The variant is added to those of the action if it is not there.
abbrev pub bind_variant : String → PayloadKind → ActionIr → ActionIr
bind_variant variant kind a = if any_bound variant a.bound_variants then a else record a {
  bound_variants = a.bound_variants ++ record { name = variant; kind = kind } ∷ [];
}

unfoldable pub intern_action_with_params :
    String → List PayloadField → String → PayloadKind → Ir → Result (Ir × ℕ)
intern_action_with_params i params variant kind ir =
    elim (index_of (λ (a : ActionIr). str_eq a.name i) 0 ir.actions) [
      | some p ↦ elim (get_elem? ir.actions p) [
        | none ↦ refused panicked
        | some a ↦
            if is_nil a.params
            then refused (unbound_before i)
            else if params_match a.params params
            then accepted
                (record ir { actions = set ir.actions p (bind_variant variant kind a) }, as_u16 p)
            else refused (other_shape i)
      ]
      | none ↦ accepted (
        record ir {
          actions =
              ir.actions
              ++ record {
                name = i;
                params = params;
                bound_variants = record { name = variant; kind = kind } ∷ [];
              }
                ∷ [];
        },
        as_u16 (length ir.actions),
      )
    ]

abbrev pub kind_of_payload : Option EventPayload → VariantKind
kind_of_payload none = VariantKind.unit
kind_of_payload (some p) = elim p.kind [
  | PayloadKind.tuple ↦ VariantKind.tuple
  | PayloadKind.struct ↦ VariantKind.struct
]

abbrev pub fields_of_payload : Option EventPayload → Option ℕ
fields_of_payload none = none
fields_of_payload (some p) = some (length p.fields)

abbrev same_count : String → EventVariantIr → Option ℕ → Option ℕ → Result EventVariantIr
same_count i old (some x) (some y) = if x == y then accepted old else refused (other_field_count i)
same_count i old none y = accepted old
same_count i old (some x) none = accepted old

-- The `match (existing.kind, kind)`; the kind of the entry comes first.
abbrev pub merge_kind :
    String → EventVariantIr → VariantKind → VariantKind → Option ℕ → Result EventVariantIr
merge_kind i old VariantKind.unit VariantKind.unit count = accepted old
merge_kind i old VariantKind.unit VariantKind.tuple count =
    accepted (record old { kind = VariantKind.tuple; field_count = count })
merge_kind i old VariantKind.unit VariantKind.struct count =
    accepted (record old { kind = VariantKind.struct; field_count = count })
merge_kind i old VariantKind.tuple VariantKind.tuple count = same_count i old old.field_count count
merge_kind i old VariantKind.struct VariantKind.struct count =
    same_count i old old.field_count count
merge_kind i old VariantKind.tuple VariantKind.unit count = accepted old
merge_kind i old VariantKind.struct VariantKind.unit count = accepted old
merge_kind i old VariantKind.tuple VariantKind.struct count = refused (other_kind i)
merge_kind i old VariantKind.struct VariantKind.tuple count = refused (other_kind i)

unfoldable pub intern_event : String → Option EventPayload → Ir → Result (Ir × ℕ)
intern_event i payload ir =
    let kind = kind_of_payload payload in
    let field_count = fields_of_payload payload in
    elim (index_of (λ (v : EventVariantIr). str_eq v.name i) 0 ir.event_variants) [
      | some p ↦ elim (get_elem? ir.event_variants p) [
        | none ↦ refused panicked
        | some old ↦ do
          merged ← merge_kind i old old.kind kind field_count
          accepted (record ir { event_variants = set ir.event_variants p merged }, as_u16 p)
      ]
      | none ↦ accepted (
        record ir {
          event_variants =
              ir.event_variants ++ record { name = i; kind = kind; field_count = field_count } ∷ [];
        },
        as_u16 (length ir.event_variants),
      )
    ]

abbrev pub full_key : String → Bool → String
full_key key true = joined key ":true"
full_key key false = joined key ":false"

abbrev pub find_duration : String → List DurationTrigger → Option ℕ
find_duration key [] = none
find_duration key (d ∷ ds) =
    let rest = find_duration key ds in if str_eq d.key key then some d.id else rest

unfoldable pub intern_duration : String → String → Bool → Ir → Ir × ℕ
intern_duration expr key repeat ir =
    elim (find_duration (full_key key repeat) ir.duration_triggers) [
      | some id ↦ (ir, id)
      | none ↦
          let id = as_u16 (length ir.duration_triggers) in
          (
            record ir {
              duration_triggers =
                  ir.duration_triggers
                  ++ record { id = id; key = full_key key repeat; expr = expr; repeat = repeat }
                    ∷ [];
            },
            id,
          )
    ]
