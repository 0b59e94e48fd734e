-- ===== src/Parse.antt =====
-- hsmc-macros/src/parse.rs: the parser of the `statechart!` grammar, over the calls of syn. What the
-- parser leaves of the inside of a pair of brackets is refused where the brackets are dropped: syn
-- reports it with the next token that is read, or at the end.
pub mod Filling
pub mod Pieces
pub mod Print
pub mod Ensures
pub mod Sound
pub mod Accepted
pub mod Reading
pub mod Rounds
pub mod RoundTrip
use text.Mathlib.Text.{◌==◌ as str_eq}
use hsmc.Input.{StatechartInput, body}
use hsmc.Prelude.{ℕ, zero, suc, ◌+◌, Bool, true, false, none, some, [], ◌∷◌, ◌++◌, if◌then◌else◌}
use hsmc.Refusal.{
  Result, accepted, refused, out_of_fuel, syntax, only_at_root, unknown_item, duplicate_trace,
  ◌>>=◌,
}
use hsmc.Syn.{Syn, Tokens, is_empty, size, brace, semi}
use hsmc.Parse.Filling.{
  require, finish, Item, context, events, trace, entry, exit, default, terminate, on, during,
  keyword, Draft, new_draft, push_child, push_handlers, or_keep,
}
use hsmc.Parse.Pieces.{parse_ident_list, named_item, type_item, names_item, on_item, during_item}

module _ (syn : Syn) where
  -- The arms of `parse_body` but that of `state`, after the name of the item.
  unfoldable pub parse_item : Bool → Item → Tokens → Draft → Result (Draft × Tokens)
  unfolding parse_ident_list on_item during_item push_handlers
  parse_item is_root context ts d = do
    ty ← type_item syn ts
    if is_root
        then accepted (record d { items = record d.items { context_ty = some ty.0 } }, ty.1)
        else refused (only_at_root "context")
  parse_item is_root events ts d = do
    ty ← type_item syn ts
    if is_root
        then accepted (record d { items = record d.items { event_ty = some ty.0 } }, ty.1)
        else refused (only_at_root "events")
  parse_item is_root trace ts d = do
    rest ← require (syn.parse_punct semi ts)
    if is_root
        then if d.items.trace_enabled
          then refused duplicate_trace
          else accepted (record d { items = record d.items { trace_enabled = true } }, rest)
        else refused (only_at_root "trace")
  parse_item is_root entry ts d = do
    names ← names_item syn ts
    accepted (record d { items = record d.items { entries = d.items.entries ++ names.0 } }, names.1)
  parse_item is_root exit ts d = do
    names ← names_item syn ts
    accepted (record d { items = record d.items { exits = d.items.exits ++ names.0 } }, names.1)
  parse_item is_root default ts d = do
    child ← named_item syn ts
    accepted (
      record d {
        items = record d.items {
          default_count = d.items.default_count + 1;
          default_child = or_keep d.items.default_child child.0;
        };
      },
      child.1,
    )
  parse_item is_root terminate ts d = do
    ev ← named_item syn ts
    accepted (
      record d {
        items = record d.items {
          terminate_count = d.items.terminate_count + 1;
          terminate = or_keep d.items.terminate ev.0;
        };
      },
      ev.1,
    )
  parse_item is_root on ts d = do r ← on_item syn ts; accepted (push_handlers r.0 r.1 d, r.2)
  parse_item is_root during ts d = do
    r ← during_item syn ts
    accepted (record d { items = record d.items { durings = d.items.durings ++ r.0 ∷ [] } }, r.1)

  -- The loop of `parse_body`. Each round reads the name of an item.
  unfoldable pub parse_body : ℕ → Bool → Tokens → Draft → Result Draft
  unfolding parse_item push_child
  parse_body zero is_root ts d = refused out_of_fuel
  parse_body (suc fuel) is_root ts d = elim (is_empty ts) [
    | true ↦ accepted d
    | false ↦ elim (syn.parse_ident ts) [
      | none ↦ refused syntax
      | some (name, after) ↦ elim (str_eq name "state") [
        | true ↦ do
          child ← require (syn.parse_ident after)
          g ← require (syn.parse_group brace child.1)
          inner ← parse_body fuel false g.0 new_draft
          parse_body fuel is_root g.1 (record d {
            children = push_child d.children child.0 (body inner.items inner.children);
          })
        | false ↦ elim (keyword name) [
          | none ↦ refused (unknown_item name)
          | some item ↦ do r ← parse_item is_root item after d; parse_body fuel is_root r.1 r.0
        ]
      ]
    ]
  ]

  -- `StatechartInput::parse`, and the refusal of what follows the chart by `syn::parse2`.
  unfoldable pub parse : Tokens → Result StatechartInput
  unfolding parse_body
  parse ts = do
    name ← require (syn.parse_ident ts)
    g ← require (syn.parse_group brace name.1)
    d ← parse_body (1 + size g.0) true g.0 new_draft
    left ← finish g.1
    accepted (record { name = name.0; root = body d.items d.children })
