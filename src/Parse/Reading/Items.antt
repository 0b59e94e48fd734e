-- ===== src/Parse/Reading/Items.antt =====
-- What the arms of `parse_body` (hsmc-macros/src/parse.rs) read of the tokens that the grammar writes.
use Prim.Native.String.{String}
use hsmc.Input.{Trigger, During}
use hsmc.Parse.Pieces.{named_item, type_item, names_item, on_item, during_fields, during_item}
use hsmc.Parse.Print.{IsWord, IsTrigger, IsDuring, print_more, print_fields, print_trigger}
use hsmc.Prelude.{◌≡◌, List, [], ◌∷◌, All}
use hsmc.Refusal.{accepted}
use hsmc.Syn.{Syn, Tokens, done, ident, punct, group, paren, colon, semi, arrow, at_semi}
use hsmc.Parse.Reading.{
  ident-read, parse_ident_list-print, parse_trigger-print, during_idents-print,
}

module _ (syn : Syn) where
  pub named_item-print :
      (s : String) (rest : Tokens)
      → IsWord syn s
      → named_item syn (group paren (ident s done) (punct semi rest)) ≡ accepted (s, rest)
  named_item-print s rest word = rw (
    syn.group_read paren (ident s done) (punct semi rest),
    ident-read syn s done word,
    syn.punct_read semi rest,
  )

  pub type_item-print :
      (t : String) (rest : Tokens)
      → type_item syn (punct colon (syn.type_tokens t (punct semi rest))) ≡ accepted (t, rest)
  type_item-print t rest = rw (
    syn.punct_read colon (syn.type_tokens t (punct semi rest)),
    syn.type_read t (punct semi rest) (at_semi rest),
    syn.punct_read semi rest,
  )

  pub names_item-print :
      (x : String) (xs : List String) (rest : Tokens)
      → IsWord syn x
      → All (IsWord syn) xs
      → names_item syn (punct colon (ident x (print_more syn xs (punct semi rest))))
        ≡ accepted (x ∷ xs, rest)
  names_item-print x xs rest word words = rw (
    syn.punct_read colon (ident x (print_more syn xs (punct semi rest))),
    parse_ident_list-print syn x xs rest word words,
    syn.punct_read semi rest,
  )

  pub on_item-print :
      (t : Trigger) (target : String) (rest : Tokens)
      → IsTrigger syn t
      → IsWord syn target
      → on_item syn
          (group paren (print_trigger syn t) (punct arrow (ident target (punct semi rest))))
        ≡ accepted (t, target ∷ [], rest)
  unfolding on_item print_more
  on_item-print t target rest fine word =
      let after = ident target (punct semi rest) in
      rw
        (
          syn.group_read paren (print_trigger syn t) (punct arrow after),
          parse_trigger-print syn t fine,
          syn.punct_read arrow after,
        )
        (rw (parse_ident_list-print syn target [] rest word tt, syn.punct_read semi rest))

  during_fields-print :
      (fs : List String) (rest : Tokens)
      → All (IsWord syn) fs
      → during_fields syn (group paren (print_fields syn fs) rest) ≡ accepted (fs, rest)
  during_fields-print fs rest words =
      rw (syn.group_read paren (print_fields syn fs) rest, during_fields)
        (rw (during_idents-print syn fs words))

  pub during_item-print :
      (d : During) (rest : Tokens)
      → IsDuring syn d
      → during_item syn (
          punct colon (ident d.fn_name (group paren (print_fields syn d.fields) (punct semi rest))))
        ≡ accepted (d, rest)
  unfolding during_item
  during_item-print d rest fine =
      let fields = group paren (print_fields syn d.fields) (punct semi rest) in
      rw (
        syn.punct_read colon (ident d.fn_name fields),
        ident-read syn d.fn_name fields fine.0,
        during_fields-print d.fields (punct semi rest) fine.1,
        syn.punct_read semi rest,
      )
