-- ===== src/Parse/Sound.antt =====
-- What the functions of hsmc-macros/src/parse.rs below `parse_body` return: the fuel is enough, every
-- name that is read is an identifier, and what is read is gone from the stream.
use Prim.Native.String.{String}
use text.Mathlib.Text.{◌==◌ as str_eq}
use hsmc.Input.{PayloadField}
use hsmc.Parse.Filling.{require, finish}
use hsmc.Parse.Pieces.{
  more_idents, parse_ident_list, fields_loop, parse_fields, typed_field, parse_typed_fields,
  parse_duration_rest, parse_payload, parse_trigger, named_item, type_item, names_item, on_item,
  during_fields, during_item, peeks,
}
use hsmc.Parse.Ensures.{
  Ensures, holds, fails, Ensures-bind, Ensures-require, Ensures-if, Ensures-elim, Ensures-option,
  Ensures-map,
}
use hsmc.Parse.Print.{IsEvent, IsWord, IsTrigger, IsDuring}
use hsmc.Prelude.{ℕ, zero, suc, ◌+◌, ◌<◌, ◌≤◌, refl, Bool, true, false, All, arith}
use hsmc.Refusal.{Result}
use hsmc.Syn.{
  Syn, Tokens, Punct, Delimiter, is_empty, size, brace, paren, colon, semi, comma, arrow, path_sep,
}

-- What is read has `P`, and the tokens that are left are fewer than `ts`.
abbrev pub Reads : {A : Type 0} → (A → Type 0) → Tokens → Result (A × Tokens) → Type 0
Reads P ts = Ensures (λ r. P r.0 × (size r.1 < size ts))

module _ (syn : Syn) where
  pub ident-Reads : (ts : Tokens) → Reads (IsWord syn) ts (require (syn.parse_ident ts))
  ident-Reads ts =
      Ensures-require (syn.parse_ident ts)
        λ r h. (syn.ident_accepted ts r.0 r.1 h, syn.ident_shrinks ts r.0 r.1 h)

  pub punct-Ensures :
      (p : Punct) (ts : Tokens)
      → Ensures (λ rest. size rest < size ts) (require (syn.parse_punct p ts))
  punct-Ensures p ts = Ensures-require (syn.parse_punct p ts) (syn.punct_shrinks p ts)

  pub group-Ensures :
      (d : Delimiter) (ts : Tokens)
      → Ensures (λ g. size g.0 + size g.1 < size ts) (require (syn.parse_group d ts))
  group-Ensures d ts =
      Ensures-require (syn.parse_group d ts) λ g h. syn.group_shrinks d ts g.0 g.1 h

  type-Ensures : (ts : Tokens) → Ensures (λ r. size r.1 < size ts) (require (syn.parse_type ts))
  type-Ensures ts = Ensures-require (syn.parse_type ts) λ r h. syn.type_shrinks ts r.0 r.1 h

  pub finish-Ensures : (ts : Tokens) → Ensures (λ u. Unit {0}) (finish ts)
  finish-Ensures ts = Ensures-if (is_empty ts) (λ e. holds tt) (λ e. fails (λ h. cc))

  more_idents-Ensures :
      (fuel : ℕ) (ts : Tokens)
      → size ts < fuel
      → Ensures (λ r. All (IsWord syn) r.0 × (size r.1 ≤ size ts)) (more_idents syn fuel ts)
  unfolding more_idents
  more_idents-Ensures zero ts enough = absurd (omega arith)
  more_idents-Ensures (suc fuel) ts enough =
      Ensures-option (syn.parse_punct comma ts) (λ h. holds (tt, omega arith))
        λ after h.
          let less = syn.punct_shrinks comma ts after h in
          Ensures-bind (ident-Reads after) λ i word.
            Ensures-bind (more_idents-Ensures fuel i.1 (omega arith))
              λ more rest. holds ((word.0, rest.0), omega arith)

  pub parse_ident_list-Reads : (ts : Tokens) → Reads (All (IsWord syn)) ts (parse_ident_list syn ts)
  unfolding parse_ident_list
  parse_ident_list-Reads ts = Ensures-bind (ident-Reads ts) λ i word.
      Ensures-bind (more_idents-Ensures (1 + size i.1) i.1 (omega arith))
        λ more rest. holds ((word.0, rest.0), omega arith)

  module _ {A : Type 0} (P : A → Type 0) (field : Tokens → Result (A × Tokens))
      (reads : (ts : Tokens) → Reads P ts (field ts)) where
    fields_loop-Ensures :
        (fuel : ℕ) (ts : Tokens)
        → size ts < fuel
        → Ensures (λ r. All P r.0) (fields_loop syn field fuel ts)
    unfolding fields_loop
    fields_loop-Ensures zero ts enough = absurd (omega arith)
    fields_loop-Ensures (suc fuel) ts enough =
        Ensures-elim (is_empty ts) (λ e. holds tt)
          λ e. Ensures-bind (reads ts) λ x read.
            Ensures-option (syn.parse_punct comma x.1) (λ h. holds (read.0, tt))
              λ after h.
                let less = syn.punct_shrinks comma x.1 after h in
                Ensures-bind (fields_loop-Ensures fuel after (omega arith))
                  λ more rest. holds (read.0, rest)

    parse_fields-Ensures : (ts : Tokens) → Ensures (All P) (parse_fields syn field ts)
    parse_fields-Ensures ts =
        Ensures-bind (fields_loop-Ensures (1 + size ts) ts (omega arith))
          λ r words. Ensures-if (is_empty r.1) (λ e. holds words) (λ e. fails (λ h. cc))

  abbrev NamesWord : PayloadField → Type 0
  NamesWord f = IsWord syn f.name

  typed_field-Reads : (ts : Tokens) → Reads NamesWord ts (typed_field syn ts)
  typed_field-Reads ts = Ensures-bind (ident-Reads ts) λ name word.
      Ensures-bind (punct-Ensures colon name.1)
        λ after less. Ensures-bind (type-Ensures after) λ ty fewer. holds (word.0, omega arith)

  parse_duration_rest-Reads :
      (repeat : Bool) (ts : Tokens) → Reads (IsTrigger syn) ts (parse_duration_rest syn repeat ts)
  unfolding parse_duration_rest
  parse_duration_rest-Reads repeat ts =
      Ensures-bind (Ensures-require (syn.parse_expr ts) (λ r h. syn.expr_shrinks ts r.0 r.1 h))
        λ e less.
          Ensures-if (syn.is_number e.0) (λ h. fails (λ h'. cc))
            λ plain. holds ((plain, refl), less)

  parse_typed_fields-Ensures : (ts : Tokens) → Ensures (All NamesWord) (parse_typed_fields syn ts)
  unfolding parse_typed_fields
  parse_typed_fields-Ensures ts =
      parse_fields-Ensures NamesWord (typed_field syn) typed_field-Reads ts

  parse_payload-Ensures :
      (v : String) (ts : Tokens)
      → IsWord syn v
      → IsEvent v
      → Ensures (λ r. IsTrigger syn r.0 × (size r.1 ≤ size ts)) (parse_payload syn v ts)
  parse_payload-Ensures v ts word event =
      Ensures-if (is_empty ts) (λ e. holds ((word, event, tt), omega arith))
        λ e.
          Ensures-option (syn.parse_group brace ts)
            (λ none_there.
              Ensures-option (syn.parse_group paren ts) (λ h. fails (λ h'. cc))
                λ g h.
                  let less = syn.group_shrinks paren ts g.0 g.1 h in
                  Ensures-bind (parse_typed_fields-Ensures g.0)
                    λ fields words. holds ((word, event, words), omega arith))
            λ g h.
              let less = syn.group_shrinks brace ts g.0 g.1 h in
              Ensures-bind (parse_typed_fields-Ensures g.0)
                λ fields words. holds ((word, event, words), omega arith)

  pub parse_trigger-Ensures :
      (ts : Tokens) → Ensures (λ r. IsTrigger syn r.0) (parse_trigger syn ts)
  unfolding parse_trigger
  parse_trigger-Ensures ts =
      Ensures-option (syn.parse_ident ts) (λ h. fails (λ h'. cc))
        λ r h.
          Ensures-if (str_eq r.0 "every")
            (λ e. Ensures-map (parse_duration_rest-Reads true r.1) (λ a p. p.0))
            λ not_every.
              Ensures-if (str_eq r.0 "after")
                (λ e. Ensures-map (parse_duration_rest-Reads false r.1) (λ a p. p.0))
                λ not_after.
                  Ensures-if (peeks syn path_sep r.1) (λ e. fails (λ h'. cc))
                    λ e.
                      Ensures-map
                        (parse_payload-Ensures r.0 r.1 (syn.ident_accepted ts r.0 r.1 h)
                          (not_every, not_after))
                        (λ a p. p.0)

  pub named_item-Reads : (ts : Tokens) → Reads (IsWord syn) ts (named_item syn ts)
  named_item-Reads ts = Ensures-bind (group-Ensures paren ts) λ g less.
      Ensures-bind (ident-Reads g.0) λ name word.
        Ensures-bind (punct-Ensures semi g.1)
          λ after fewer. Ensures-bind (finish-Ensures name.1) λ left u. holds (word.0, omega arith)

  pub type_item-Ensures : (ts : Tokens) → Ensures (λ r. size r.1 < size ts) (type_item syn ts)
  type_item-Ensures ts = Ensures-bind (punct-Ensures colon ts) λ after less.
      Ensures-bind (type-Ensures after)
        λ ty fewer. Ensures-bind (punct-Ensures semi ty.1) λ rest last. holds (omega arith)

  pub names_item-Reads : (ts : Tokens) → Reads (All (IsWord syn)) ts (names_item syn ts)
  names_item-Reads ts = Ensures-bind (punct-Ensures colon ts) λ after less.
      Ensures-bind (parse_ident_list-Reads after) λ names words.
        Ensures-bind (punct-Ensures semi names.1) λ rest last. holds (words.0, omega arith)

  pub on_item-Ensures :
      (ts : Tokens)
      → Ensures
          (λ r. IsTrigger syn r.0 × All (IsWord syn) r.1 × (size r.2 < size ts))
          (on_item syn ts)
  unfolding on_item
  on_item-Ensures ts = Ensures-bind (group-Ensures paren ts) λ g less.
      Ensures-bind (parse_trigger-Ensures g.0) λ trigger fine.
        Ensures-bind (punct-Ensures arrow g.1) λ after fewer.
          Ensures-bind (parse_ident_list-Reads after) λ targets words.
            Ensures-bind (punct-Ensures semi targets.1) λ rest last.
              Ensures-bind (finish-Ensures trigger.1) λ left u. holds (fine, words.0, omega arith)

  during_fields-Ensures :
      (ts : Tokens)
      → Ensures (λ r. All (IsWord syn) r.0 × (size r.1 ≤ size ts)) (during_fields syn ts)
  during_fields-Ensures ts =
      Ensures-option (syn.parse_group paren ts) (λ h. holds (tt, omega arith))
        λ g h.
          let less = syn.group_shrinks paren ts g.0 g.1 h in
          Ensures-bind
            (parse_fields-Ensures (IsWord syn) (λ us. require (syn.parse_ident us)) ident-Reads g.0)
            λ fields words. holds (words, omega arith)

  pub during_item-Reads : (ts : Tokens) → Reads (IsDuring syn) ts (during_item syn ts)
  unfolding during_item
  during_item-Reads ts = Ensures-bind (punct-Ensures colon ts) λ after less.
      Ensures-bind (ident-Reads after) λ fn word.
        Ensures-bind (during_fields-Ensures fn.1) λ fields words.
          Ensures-bind (punct-Ensures semi fields.1)
            λ rest last. holds ((word.0, words.0), omega arith)
