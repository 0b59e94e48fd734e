-- ===== src/Parse/Print.antt =====
-- The grammar of `statechart!` (hsmc-macros/src/parse.rs) as a printer, and the trees that it prints.
use Prim.Native.String.{String}
use text.Mathlib.Text.{◌==◌ as str_eq}
use hsmc.Input.{
  PayloadKind, PayloadField, EventPayload, Trigger, Handler, During, Items, StateBody, StateDecls,
  StatechartInput, body, nil, cons, tuple, struct,
}
use hsmc.Parse.Pieces.{expr_to_string}
use hsmc.Prelude.{
  ℕ, zero, suc, ◌+◌, ◌<◌, ◌≡◌, Bool, true, false, Option, none, some, List, [], ◌∷◌, All,
}
use hsmc.Syn.{
  Syn, Tokens, Delimiter, done, ident, punct, group, brace, paren, colon, semi, comma, arrow,
}

-- A word after the mode keywords, which is an event.
abbrev pub IsEvent : String → Type 0
IsEvent v = (str_eq v "every" ≡ false) × (str_eq v "after" ≡ false)

module _ (syn : Syn) where
  abbrev pub IsWord : String → Type 0
  IsWord s = syn.accepts s ≡ true

  abbrev pub IsPayload : Option EventPayload → Type 0
  IsPayload none = Unit
  IsPayload (some p) = All (λ (f : PayloadField). IsWord f.name) p.fields

  -- A duration is no bare number, and its key is the text of its expression.
  abbrev pub IsTrigger : Trigger → Type 0
  IsTrigger (Trigger.event v payload) = IsWord v × IsEvent v × IsPayload payload
  IsTrigger (Trigger.duration e key repeat) =
      (syn.is_number e ≡ false) × (key ≡ expr_to_string syn e)

  -- The handlers are counted from `n` on.
  abbrev pub AreHandlers : ℕ → List Handler → Type 0
  AreHandlers n [] = Unit
  AreHandlers n (h ∷ hs) =
      (h.decl_index ≡ n) × IsTrigger h.trigger × IsWord h.target × AreHandlers (n + 1) hs

  abbrev pub IsDuring : During → Type 0
  IsDuring d = IsWord d.fn_name × All IsWord d.fields

  -- A name that is given `n` times, the first time to count.
  abbrev pub IsGiven : Option String → ℕ → Type 0
  IsGiven none n = n ≡ 0
  IsGiven (some s) n = IsWord s × (0 < n)

  pub record AreItems (is_root : Bool) (items : Items) : Type 0 where
    pub no_context : is_root ≡ false → items.context_ty ≡ none
    pub no_events : is_root ≡ false → items.event_ty ≡ none
    pub no_trace : is_root ≡ false → items.trace_enabled ≡ false
    pub terminates : IsGiven items.terminate items.terminate_count
    pub defaults : IsGiven items.default_child items.default_count
    pub entered : All IsWord items.entries
    pub exited : All IsWord items.exits
    pub handled : AreHandlers 0 items.handlers
    pub during : All IsDuring items.durings

  -- A body that the grammar writes.
  unfoldable mutual
    pub IsBody : Bool → StateBody → Type 0
    IsBody is_root (body items kids) = AreItems is_root items × AreChildren kids

    pub AreChildren : StateDecls → Type 0
    AreChildren nil = Unit
    AreChildren (cons name b rest) = IsWord name × IsBody false b × AreChildren rest

  abbrev pub IsInput : StatechartInput → Type 0
  unfolding IsBody
  IsInput input = IsWord input.name × IsBody true input.root

  -- Each printer takes the tokens that follow.
  unfoldable pub print_type_item : String → Option String → Tokens → Tokens
  print_type_item name none rest = rest
  print_type_item name (some t) rest =
      ident name (punct colon (syn.type_tokens t (punct semi rest)))

  unfoldable pub print_trace : Bool → Tokens → Tokens
  print_trace false rest = rest
  print_trace true rest = ident "trace" (punct semi rest)

  unfoldable pub print_named : String → String → ℕ → Tokens → Tokens
  print_named item s zero rest = rest
  print_named item s (suc n) rest =
      ident item (group paren (ident s done) (punct semi (print_named item s n rest)))

  unfoldable pub print_given : String → Option String → ℕ → Tokens → Tokens
  unfolding print_named
  print_given item none n rest = rest
  print_given item (some s) n rest = print_named item s n rest

  -- `, <name>` for each name
  unfoldable pub print_more : List String → Tokens → Tokens
  print_more [] rest = rest
  print_more (x ∷ xs) rest = punct comma (ident x (print_more xs rest))

  unfoldable pub print_names : String → List String → Tokens → Tokens
  unfolding print_more
  print_names item [] rest = rest
  print_names item (x ∷ xs) rest =
      ident item (punct colon (ident x (print_more xs (punct semi rest))))

  abbrev pub print_mode : Bool → String
  print_mode true = "every"
  print_mode false = "after"

  -- Every field is followed by a comma, which may stand after the last one too.
  unfoldable pub print_fields : List String → Tokens
  print_fields [] = done
  print_fields (x ∷ xs) = ident x (punct comma (print_fields xs))

  unfoldable pub print_typed_fields : List PayloadField → Tokens
  print_typed_fields [] = done
  print_typed_fields (f ∷ fs) =
      ident f.name (punct colon (syn.type_tokens f.ty (punct comma (print_typed_fields fs))))

  abbrev pub bracket : PayloadKind → Delimiter
  bracket tuple = paren
  bracket struct = brace

  unfoldable pub print_trigger : Trigger → Tokens
  unfolding print_typed_fields
  print_trigger (Trigger.event v none) = ident v done
  print_trigger (Trigger.event v (some p)) =
      ident v (group (bracket p.kind) (print_typed_fields p.fields) done)
  print_trigger (Trigger.duration e key repeat) = ident (print_mode repeat) (syn.expr_tokens e)

  -- Every handler has an `on` of its own.
  unfoldable pub print_handlers : List Handler → Tokens → Tokens
  unfolding print_trigger
  print_handlers [] rest = rest
  print_handlers (h ∷ hs) rest = ident "on" (
      group paren (print_trigger h.trigger)
        (punct arrow (ident h.target (punct semi (print_handlers hs rest)))))

  unfoldable pub print_durings : List During → Tokens → Tokens
  unfolding print_fields
  print_durings [] rest = rest
  print_durings (d ∷ ds) rest = ident "during" (
      punct colon (
        ident d.fn_name (group paren (print_fields d.fields) (punct semi (print_durings ds rest)))))

  unfoldable pub print_items : Items → Tokens → Tokens
  unfolding print_type_item print_trace print_given print_names print_handlers print_durings
  print_items items rest = print_type_item "context" items.context_ty (
      print_type_item "events" items.event_ty (
        print_trace items.trace_enabled (
          print_given "terminate" items.terminate items.terminate_count (
            print_given "default" items.default_child items.default_count (
              print_names "entry" items.entries (
                print_names "exit" items.exits
                  (print_handlers items.handlers (print_durings items.durings rest))))))))

  -- The items of a body stand before its states.
  unfoldable mutual
    unfolding print_items

    pub print_body : StateBody → Tokens
    print_body (body items kids) = print_items items (print_children kids)

    pub print_children : StateDecls → Tokens
    print_children nil = done
    print_children (cons name b rest) =
        ident "state" (ident name (group brace (print_body b) (print_children rest)))

  unfoldable pub print : StatechartInput → Tokens
  unfolding print_body
  print input = ident input.name (group brace (print_body input.root) done)
