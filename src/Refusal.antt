-- ===== src/Refusal.antt =====
-- `syn::Result` of hsmc-macros/src: parse.rs, ir.rs and validate.rs. An error is the case that the code
-- reports, with the name that stands in its message; `syntax` is an error of syn's own, and `panicked`
-- is an index out of range, where the macro panics.
use Prim.Native.String.{String}
use hsmc.Prelude.{List, ◌≡◌, refl}

pub data Refusal : Type 0 where
  panicked out_of_fuel : Refusal
  syntax bare_number bad_trigger after_variant after_fields : Refusal
  only_at_root unknown_item : (item : String) → Refusal
  duplicate_trace : Refusal
  missing_context : Refusal
  bound_before unbound_before other_shape : (action : String) → Refusal
  other_field_count other_kind : (variant : String) → Refusal
  every_to_state : (target : String) → Refusal
  payload_to_state : (variant : String) → Refusal
  unknown_target unknown_default : (name : String) → Refusal
  default_cycle : (cycle : List String) → Refusal
  duplicate_state empty_state : (state : String) → Refusal
  repeated_field shared_field : (field : String) → Refusal
  duplicate_transition : (trigger state : String) → Refusal
  transition_too_early : (trigger target : String) → Refusal
  action_too_late : (trigger : String) → Refusal
  many_defaults : (state : String) → Refusal
  many_terminates inner_terminate : Refusal

pub data Result {ℓ} (A : Type ℓ) : Type ℓ where
  accepted : A → Result A
  refused : Refusal → Result A

infixl 5 ◌>>=◌
abbrev pub ◌>>=◌ {ℓ κ} : {A : Type ℓ} {B : Type κ} → Result A → (A → Result B) → Result B
accepted a >>= f = f a
refused e >>= f = refused e

-- Inversion of a chain that is accepted.
pub >>=-eq-accepted {ℓ κ} :
    {A : Type ℓ} {B : Type κ} (m : Result A) (f : A → Result B) {b : B}
    → (m >>= f) ≡ accepted b
    → (a : A) × (m ≡ accepted a) × (f a ≡ accepted b)
>>=-eq-accepted (accepted a) f h = (a, refl, h)
>>=-eq-accepted (refused e) f h = cc
