-- ===== src/Input.antt =====
-- hsmc-macros/src/parse.rs: the tree that the parser hands to the lowering. Identifiers are their
-- text; a type or an expression of the user is the text of its tokens, which is all that the macro
-- compares. Spans are left out.
use Prim.Native.String.{String}
use hsmc.Prelude.{ℕ, Bool, Option, List}

pub data PayloadKind : Type 0 where
  tuple struct : PayloadKind

pub record PayloadField : Type 0 where
  pub name : String
  pub ty : String

pub record EventPayload : Type 0 where
  pub kind : PayloadKind
  pub fields : List PayloadField

-- `Trigger::Event` and `Trigger::Duration`
pub data Trigger : Type 0 where
  event : (variant : String) (payload : Option EventPayload) → Trigger
  duration : (expr key : String) (repeat : Bool) → Trigger

-- `HandlerKind::Target` is the one constructor of the handler's kind.
pub record Handler : Type 0 where
  pub trigger : Trigger
  pub target : String
  pub decl_index : ℕ

pub record During : Type 0 where
  pub fn_name : String
  pub fields : List String

-- What `StateBody` holds beside its children.
pub record Items : Type 0 where
  pub context_ty : Option String
  pub event_ty : Option String
  pub terminate : Option String
  pub default_child : Option String
  pub default_count : ℕ
  pub terminate_count : ℕ
  pub entries : List String
  pub exits : List String
  pub handlers : List Handler
  pub durings : List During
  pub trace_enabled : Bool

-- `StateBody` and the list `children` of its `StateDecl`s.
mutual
  pub data StateBody : Type 0 where
    body : Items → StateDecls → StateBody

  pub data StateDecls : Type 0 where
    nil : StateDecls
    cons : (name : String) → StateBody → StateDecls → StateDecls

pub record StatechartInput : Type 0 where
  pub name : String
  pub root : StateBody
