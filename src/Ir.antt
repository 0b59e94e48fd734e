-- ===== src/Ir.antt =====
-- hsmc-macros/src/ir.rs: the intermediate representation. A `u16` or `u8` is a natural number whose
-- casts are written out where they are made.
use Prim.Native.String.{String}
use hsmc.Prelude.{ℕ, ◌%◌, Bool, Option, List, get_elem?, some, none}
use hsmc.Input.{EventPayload, PayloadField, PayloadKind, During}

-- `as u16` of a `usize`
abbrev pub as_u16 : ℕ → ℕ
as_u16 n = n % 65536

abbrev pub u16_max : ℕ
u16_max = 65535

pub data VariantKind : Type 0 where
  unit tuple struct : VariantKind

pub record EventVariantIr : Type 0 where
  pub name : String
  pub kind : VariantKind
  pub field_count : Option ℕ

pub record BoundVariant : Type 0 where
  pub name : String
  pub kind : PayloadKind

pub record ActionIr : Type 0 where
  pub name : String
  pub params : List PayloadField
  pub bound_variants : List BoundVariant

pub record DurationTrigger : Type 0 where
  pub id : ℕ
  pub key : String
  pub expr : String
  pub repeat : Bool

pub data TriggerIr : Type 0 where
  event : (id : ℕ) (variant : String) (payload : Option EventPayload) → TriggerIr
  duration : (id : ℕ) → TriggerIr

pub data HandlerKindIr : Type 0 where
  transition : (target : String) (slot : Option ℕ) → HandlerKindIr
  action : (id : ℕ) (name : String) → HandlerKindIr

pub record HandlerIr : Type 0 where
  pub trigger : TriggerIr
  pub kind : HandlerKindIr
  pub decl_index : ℕ

pub record StateIr : Type 0 where
  pub id : ℕ
  pub name : String
  pub parent : Option ℕ
  pub depth : ℕ
  pub default_child : Option ℕ
  pub default_target_ident : Option String
  pub entries : List ℕ
  pub exits : List ℕ
  pub handlers : List HandlerIr
  pub children : List ℕ
  pub owned_timers : List ℕ
  pub durings : List During

pub record Ir : Type 0 where
  pub name : String
  pub context_ty : String
  pub event_ty : String
  pub events_omitted : Bool
  pub terminate_event : Option String
  pub states : List StateIr
  pub actions : List ActionIr
  pub event_variants : List EventVariantIr
  pub duration_triggers : List DurationTrigger
  pub trace_enabled : Bool

-- `states[s].parent` and `states[s].depth`. An id past the table, where the source panics, reads as
-- a root; the states of a tree name no such id.
unfoldable pub parent_of : List StateIr → ℕ → Option ℕ
parent_of states s = elim (get_elem? states s) [ none ↦ none | some st ↦ st.parent ]

unfoldable pub depth_of : List StateIr → ℕ → ℕ
depth_of states s = elim (get_elem? states s) [ none ↦ 0 | some st ↦ st.depth ]
