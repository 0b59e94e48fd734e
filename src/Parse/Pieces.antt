-- ===== src/Parse/Pieces.antt =====
-- The functions of hsmc-macros/src/parse.rs below `parse_body`, and the parts of its arms.
use Prim.Native.Char.{code}
use Prim.Native.String.{String}
use text.Mathlib.Text.{◌==◌ as str_eq}
use hsmc.Input.{PayloadField, Trigger, During, tuple, struct}
use hsmc.Prelude.{
  ℕ, zero, suc, ◌+◌, ◌==◌, leb, Bool, true, false, ◌&&◌, ◌||◌, none, some, List, [], ◌∷◌,
  if◌then◌else◌,
}
use hsmc.Refusal.{
  Result, accepted, refused, out_of_fuel, bare_number, bad_trigger, after_variant, after_fields,
  ◌>>=◌,
}
use hsmc.Syn.{Syn, Tokens, Punct, is_empty, size, brace, paren, colon, semi, comma, arrow, path_sep}
use hsmc.Parse.Filling.{require, finish}

-- `char::is_whitespace`
abbrev pub is_whitespace : ℕ → Bool
is_whitespace c =
    (leb 9 c && leb c 13)
    || c == 32
    || c == 133
    || c == 160
    || c == 5760
    || (leb 8192 c && leb c 8202)
    || c == 8232
    || c == 8233
    || c == 8239
    || c == 8287
    || c == 12288

-- `split_whitespace().collect()`
unfoldable pub squeeze : String → String
squeeze String.[] = String.[]
squeeze (String.◌∷◌ c s) =
    let rest = squeeze s in if is_whitespace (code c) then rest else String.◌∷◌ c rest

module _ (syn : Syn) where
  -- `Some(..)` if the next token is there.
  abbrev pub peeks : Punct → Tokens → Bool
  peeks p ts = elim (syn.parse_punct p ts) [ none ↦ false | some rest ↦ true ]

  -- The loop of `parse_ident_list` after the first name.
  unfoldable pub more_idents : ℕ → Tokens → Result (List String × Tokens)
  more_idents zero ts = refused out_of_fuel
  more_idents (suc fuel) ts = elim (syn.parse_punct comma ts) [
    | none ↦ accepted ([], ts)
    | some after ↦ do
      i ← require (syn.parse_ident after)
      more ← more_idents fuel i.1
      accepted (i.0 ∷ more.0, more.1)
  ]

  unfoldable pub parse_ident_list : Tokens → Result (List String × Tokens)
  parse_ident_list ts = do
    i ← require (syn.parse_ident ts)
    more ← more_idents (1 + size i.1) i.1
    accepted (i.0 ∷ more.0, more.1)

  -- `while !inner.is_empty() { ..; if inner.peek(Token![,]) { .. } else { break; } }`
  unfoldable pub fields_loop {ℓ} :
      {A : Type ℓ} → (Tokens → Result (A × Tokens)) → ℕ → Tokens → Result (List A × Tokens)
  fields_loop field zero ts = refused out_of_fuel
  fields_loop field (suc fuel) ts = elim (is_empty ts) [
    | true ↦ accepted ([], ts)
    | false ↦ do
      x ← field ts
      elim (syn.parse_punct comma x.1) [
        | none ↦ accepted (x.0 ∷ [], x.1)
        | some after ↦ do more ← fields_loop field fuel after; accepted (x.0 ∷ more.0, more.1)
      ]
  ]

  -- The loop, and the refusal of what stands after it.
  abbrev pub parse_fields {ℓ} :
      {A : Type ℓ} → (Tokens → Result (A × Tokens)) → Tokens → Result (List A)
  parse_fields field ts = do
    r ← fields_loop field (1 + size ts) ts
    if is_empty r.1 then accepted r.0 else refused after_fields

  abbrev pub typed_field : Tokens → Result (PayloadField × Tokens)
  typed_field ts = do
    name ← require (syn.parse_ident ts)
    after ← require (syn.parse_punct colon name.1)
    ty ← require (syn.parse_type after)
    accepted (record { name = name.0; ty = ty.0 }, ty.1)

  unfoldable pub parse_typed_fields : Tokens → Result (List PayloadField)
  unfolding fields_loop
  parse_typed_fields ts = parse_fields typed_field ts

  abbrev pub expr_to_string : String → String
  expr_to_string e = squeeze (syn.to_text e)

  unfoldable pub parse_duration_rest : Bool → Tokens → Result (Trigger × Tokens)
  parse_duration_rest repeat ts = do
    e ← require (syn.parse_expr ts)
    if syn.is_number e.0
        then refused bare_number
        else accepted (Trigger.duration e.0 (expr_to_string e.0) repeat, e.1)

  -- What may follow the variant of an event.
  abbrev pub parse_payload : String → Tokens → Result (Trigger × Tokens)
  parse_payload variant ts =
      if is_empty ts
      then accepted (Trigger.event variant none, ts)
      else elim (syn.parse_group brace ts) [
        | some (inner, after) ↦ do
          fields ← parse_typed_fields inner
          accepted (Trigger.event variant (some (record { kind = struct; fields = fields })), after)
        | none ↦ elim (syn.parse_group paren ts) [
          | some (inner, after) ↦ do
            fields ← parse_typed_fields inner
            accepted
                (Trigger.event variant (some (record { kind = tuple; fields = fields })), after)
          | none ↦ refused after_variant
        ]
      ]

  unfoldable pub parse_trigger : Tokens → Result (Trigger × Tokens)
  parse_trigger ts = elim (syn.parse_ident ts) [
    | none ↦ refused bad_trigger
    | some (name, after) ↦
        if str_eq name "every"
        then parse_duration_rest true after
        else if str_eq name "after"
        then parse_duration_rest false after
        else if peeks path_sep after
        then refused bad_trigger
        else parse_payload name after
  ]

  -- `let kw: Ident = input.parse()?; parenthesized!(inner in input); inner.parse::<Ident>()?` and a `;`
  abbrev pub named_item : Tokens → Result (String × Tokens)
  named_item ts = do
    g ← require (syn.parse_group paren ts)
    name ← require (syn.parse_ident g.0)
    after ← require (syn.parse_punct semi g.1)
    left ← finish name.1
    accepted (name.0, after)

  -- `: <type> ;`
  abbrev pub type_item : Tokens → Result (String × Tokens)
  type_item ts = do
    after ← require (syn.parse_punct colon ts)
    ty ← require (syn.parse_type after)
    rest ← require (syn.parse_punct semi ty.1)
    accepted (ty.0, rest)

  -- `: <names> ;`
  abbrev pub names_item : Tokens → Result (List String × Tokens)
  names_item ts = do
    after ← require (syn.parse_punct colon ts)
    names ← parse_ident_list after
    rest ← require (syn.parse_punct semi names.1)
    accepted (names.0, rest)

  -- `on ( <trigger> ) => <targets> ;`
  unfoldable pub on_item : Tokens → Result (Trigger × List String × Tokens)
  unfolding parse_trigger parse_ident_list
  on_item ts = do
    g ← require (syn.parse_group paren ts)
    trigger ← parse_trigger g.0
    after ← require (syn.parse_punct arrow g.1)
    targets ← parse_ident_list after
    rest ← require (syn.parse_punct semi targets.1)
    left ← finish trigger.1
    accepted (trigger.0, targets.0, rest)

  abbrev pub during_fields : Tokens → Result (List String × Tokens)
  during_fields ts = elim (syn.parse_group paren ts) [
    | none ↦ accepted ([], ts)
    | some (inner, after) ↦ do
      fields ← parse_fields (λ us. require (syn.parse_ident us)) inner
      accepted (fields, after)
  ]

  unfoldable pub during_item : Tokens → Result (During × Tokens)
  unfolding fields_loop
  during_item ts = do
    after ← require (syn.parse_punct colon ts)
    fn ← require (syn.parse_ident after)
    fields ← during_fields fn.1
    rest ← require (syn.parse_punct semi fields.1)
    accepted (record { fn_name = fn.0; fields = fields.0 }, rest)
