-- ===== src/Parse/Reading.antt =====
-- What the functions of hsmc-macros/src/parse.rs below `parse_body` read of the tokens that the grammar
-- writes.
pub mod Items
use Prim.Native.String.{String}
use hsmc.Input.{PayloadKind, PayloadField, Trigger, tuple, struct}
use hsmc.Parse.Filling.{require}
use hsmc.Parse.Pieces.{
  more_idents, parse_ident_list, fields_loop, parse_fields, typed_field, parse_typed_fields,
  parse_duration_rest, expr_to_string, parse_payload, parse_trigger, peeks,
}
use hsmc.Parse.Print.{
  IsWord, IsTrigger, print_more, print_fields, print_typed_fields, print_trigger, bracket,
}
use hsmc.Prelude.{
  ℕ, zero, suc, ◌+◌, ◌<◌, ◌≡◌, refl, Bool, true, false, none, some, List, [], ◌∷◌, All,
  All-get_elem?, get_elem?, arith, ap, sym,
}
use hsmc.Refusal.{Result, accepted}
use hsmc.Syn.{
  item_names, Syn, Tokens, Punct, is_empty, size, done, ident, punct, group, brace, paren, colon,
  semi, comma, path_sep, at_comma,
}

module _ (syn : Syn) where
  pub ident-read :
      (s : String) (ts : Tokens) → IsWord syn s → syn.parse_ident (ident s ts) ≡ some (s, ts)
  ident-read s ts word = rw (syn.ident_read s ts, word)

  more_idents-print :
      (xs : List String) (fuel : ℕ) (rest : Tokens)
      → size (print_more syn xs (punct semi rest)) < fuel
      → All (IsWord syn) xs
      → more_idents syn fuel (print_more syn xs (punct semi rest)) ≡ accepted (xs, punct semi rest)
  unfolding more_idents print_more size
  more_idents-print xs zero rest enough words = absurd (omega arith)
  more_idents-print [] (suc fuel) rest enough words = rw (syn.comma_semi rest, more_idents)
  more_idents-print (x ∷ xs) (suc fuel) rest enough words =
      let more = more_idents-print xs fuel rest (omega arith) words.1 in
      rw (
        syn.punct_read comma (ident x (print_more syn xs (punct semi rest))),
        ident-read x (print_more syn xs (punct semi rest)) words.0,
        more,
        more_idents,
      )

  pub parse_ident_list-print :
      (x : String) (xs : List String) (rest : Tokens)
      → IsWord syn x
      → All (IsWord syn) xs
      → parse_ident_list syn (ident x (print_more syn xs (punct semi rest)))
        ≡ accepted (x ∷ xs, punct semi rest)
  unfolding parse_ident_list
  parse_ident_list-print x xs rest word words = rw (
    ident-read x (print_more syn xs (punct semi rest)) word,
    more_idents-print xs (1 + size (print_more syn xs (punct semi rest))) rest (omega arith) words,
  )

  -- A list of fields, each before a comma.
  module _ {A : Type 0} (P : A → Type 0) (field : Tokens → Result (A × Tokens))
      (print_all : List A → Tokens) (none_left : print_all [] ≡ done)
      (more_left : (x : A) (xs : List A) → is_empty (print_all (x ∷ xs)) ≡ false)
      (reads : (x : A) (xs : List A)
        → P x
        → field (print_all (x ∷ xs)) ≡ accepted (x, punct comma (print_all xs)))
      (shrinks : (x : A) (xs : List A) → size (print_all xs) < size (print_all (x ∷ xs))) where
    fields_loop-print :
        (xs : List A) (fuel : ℕ)
        → size (print_all xs) < fuel
        → All P xs
        → fields_loop syn field fuel (print_all xs) ≡ accepted (xs, done)
    unfolding fields_loop
    fields_loop-print xs zero enough all = absurd (omega arith)
    fields_loop-print [] (suc fuel) enough all =
        rw (none_left, fields_loop) (ap (λ ts. accepted ([], ts)) none_left)
    fields_loop-print (x ∷ xs) (suc fuel) enough all =
        let less = shrinks x xs in
        let more = fields_loop-print xs fuel (omega arith) all.1 in
        rw (more_left x xs, fields_loop)
          (rw (reads x xs all.0) (rw (syn.punct_read comma (print_all xs)) (rw more)))

    parse_fields-print :
        (xs : List A) → All P xs → parse_fields syn field (print_all xs) ≡ accepted xs
    parse_fields-print xs all =
        rw (fields_loop-print xs (1 + size (print_all xs)) (omega arith) all)

  pub during_idents-print :
      (xs : List String)
      → All (IsWord syn) xs
      → parse_fields syn (λ us. require (syn.parse_ident us)) (print_fields syn xs) ≡ accepted xs
  unfolding print_fields size
  during_idents-print =
      parse_fields-print (IsWord syn) (λ us. require (syn.parse_ident us)) (print_fields syn) refl
        (λ x xs. refl) (λ x xs word. rw (ident-read x (punct comma (print_fields syn xs)) word))
        (λ x xs. omega arith)

  typed_field-print :
      (f : PayloadField) (fs : List PayloadField)
      → IsWord syn f.name
      → typed_field syn (print_typed_fields syn (f ∷ fs))
        ≡ accepted (f, punct comma (print_typed_fields syn fs))
  unfolding print_typed_fields
  typed_field-print f fs word =
      let after = punct comma (print_typed_fields syn fs) in
      rw (
        ident-read f.name (punct colon (syn.type_tokens f.ty after)) word,
        syn.punct_read colon (syn.type_tokens f.ty after),
        syn.type_read f.ty after (at_comma (print_typed_fields syn fs)),
      )

  parse_typed_fields-print :
      (fs : List PayloadField)
      → All (λ (f : PayloadField). IsWord syn f.name) fs
      → parse_typed_fields syn (print_typed_fields syn fs) ≡ accepted fs
  unfolding parse_typed_fields print_typed_fields size
  parse_typed_fields-print =
      parse_fields-print (λ (f : PayloadField). IsWord syn f.name) (typed_field syn)
        (print_typed_fields syn) refl (λ x xs. refl) typed_field-print
        (λ f fs.
          let after = punct comma (print_typed_fields syn fs) in
          let less =
            syn.type_shrinks (syn.type_tokens f.ty after) f.ty after
              (syn.type_read f.ty after (at_comma (print_typed_fields syn fs))) in
          omega arith)

  parse_payload-print :
      (v : String) (kind : PayloadKind) (fs : List PayloadField)
      → All (λ (f : PayloadField). IsWord syn f.name) fs
      → parse_payload syn v (group (bracket syn kind) (print_typed_fields syn fs) done)
        ≡ accepted (Trigger.event v (some (record { kind = kind; fields = fs })), done)
  parse_payload-print v tuple fs all = rw (
    syn.paren_brace (print_typed_fields syn fs) done,
    syn.group_read paren (print_typed_fields syn fs) done,
    parse_typed_fields-print fs all,
  )
  parse_payload-print v struct fs all =
      rw (syn.group_read brace (print_typed_fields syn fs) done, parse_typed_fields-print fs all)

  peeks-none : (p : Punct) (ts : Tokens) → syn.parse_punct p ts ≡ none → peeks syn p ts ≡ false
  peeks-none p ts h = rw (h, peeks)

  parse_duration_rest-print :
      (e key : String) (repeat : Bool)
      → syn.is_number e ≡ false
      → key ≡ expr_to_string syn e
      → parse_duration_rest syn repeat (syn.expr_tokens e)
        ≡ accepted (Trigger.duration e key repeat, done)
  unfolding parse_duration_rest
  parse_duration_rest-print e key repeat plain text =
      rw (syn.expr_read e, plain)
        (ap (λ k. accepted (Trigger.duration e k repeat, done)) (sym text))

  -- The names of the items are identifiers.
  pub item-IsWord : (i : ℕ) {name : String} → get_elem? item_names i ≡ some name → IsWord syn name
  item-IsWord i {name} at = All-get_elem? (λ w. IsWord syn w) item_names i name syn.accepts_items at

  pub parse_trigger-print :
      (t : Trigger) → IsTrigger syn t → parse_trigger syn (print_trigger syn t) ≡ accepted (t, done)
  unfolding parse_trigger print_trigger
  parse_trigger-print (Trigger.event v none) (word, event, payload) =
      rw (ident-read v done word, parse_trigger)
        (rw (event.0, event.1, peeks-none path_sep done (syn.punct_done path_sep)))
  parse_trigger-print (Trigger.event v (some p)) (word, event, payload) =
      let inner = print_typed_fields syn p.fields in
      let after = group (bracket syn p.kind) inner done in
      rw (ident-read v after word, parse_trigger)
        (rw
          (
            event.0,
            event.1,
            peeks-none path_sep after (syn.punct_group path_sep (bracket syn p.kind) inner done),
          )
          (parse_payload-print v p.kind p.fields payload))
  parse_trigger-print (Trigger.duration e key true) (plain, text) =
      rw (ident-read "every" (syn.expr_tokens e) (item-IsWord 10 refl), parse_trigger)
        (parse_duration_rest-print e key true plain text)
  parse_trigger-print (Trigger.duration e key false) (plain, text) =
      rw (ident-read "after" (syn.expr_tokens e) (item-IsWord 11 refl), parse_trigger)
        (parse_duration_rest-print e key false plain text)
