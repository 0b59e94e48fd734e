-- ===== src/Parse/Filling.antt =====
-- The body that the parser of hsmc-macros/src/parse.rs fills.
use Prim.Native.String.{String}
use text.Mathlib.Text.{◌==◌ as str_eq}
use hsmc.Input.{Trigger, Handler, Items, StateBody, StateDecls, nil, cons}
use hsmc.Prelude.{ℕ, ◌+◌, false, Option, none, some, List, [], ◌∷◌, ◌++◌, if◌then◌else◌}
use hsmc.Refusal.{Result, accepted, refused, syntax}
use hsmc.Syn.{Tokens, is_empty}

-- The `?` on a call of syn.
abbrev pub require {ℓ} : {A : Type ℓ} → Option A → Result A
require none = refused syntax
require (some a) = accepted a

-- What stands in brackets that are dropped.
abbrev pub finish : Tokens → Result (Unit {0})
finish ts = if is_empty ts then accepted tt else refused syntax

-- The items of a body but `state`.
pub data Item : Type 0 where
  context events trace entry exit default terminate on during : Item

-- `match name.as_str()`
abbrev pub keyword : String → Option Item
keyword name =
    if str_eq name "context"
    then some context
    else if str_eq name "events"
    then some events
    else if str_eq name "trace"
    then some trace
    else if str_eq name "entry"
    then some entry
    else if str_eq name "exit"
    then some exit
    else if str_eq name "default"
    then some default
    else if str_eq name "terminate"
    then some terminate
    else if str_eq name "on"
    then some on
    else if str_eq name "during"
    then some during
    else none

-- `StateBody::new`
abbrev pub new_items : Items
new_items = record {
  context_ty = none;
  event_ty = none;
  terminate = none;
  default_child = none;
  default_count = 0;
  terminate_count = 0;
  entries = [];
  exits = [];
  handlers = [];
  durings = [];
  trace_enabled = false;
}

-- The body that `parse_body` fills, and its counter of handlers.
pub record Draft : Type 0 where
  pub items : Items
  pub children : StateDecls
  pub decl_index : ℕ

abbrev pub new_draft : Draft
new_draft = record { items = new_items; children = nil; decl_index = 0 }

-- `body.children.push(..)`
unfoldable pub push_child : StateDecls → String → StateBody → StateDecls
push_child nil name b = cons name b nil
push_child (cons n c rest) name b = cons n c (push_child rest name b)

-- The loop over the targets of a handler.
unfoldable pub push_handlers : Trigger → List String → Draft → Draft
push_handlers trig [] d = d
push_handlers trig (target ∷ rest) d =
    let h : Handler = record { trigger = trig; target = target; decl_index = d.decl_index } in
    push_handlers trig rest (record d {
      items = record d.items { handlers = d.items.handlers ++ h ∷ [] };
      decl_index = d.decl_index + 1;
    })

-- `if body.default_child.is_none() { .. }`
abbrev pub or_keep : Option String → String → Option String
or_keep none s = some s
or_keep (some t) s = some t
