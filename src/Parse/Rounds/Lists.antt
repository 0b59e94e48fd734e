-- ===== src/Parse/Rounds/Lists.antt =====
-- The rounds of `parse_body` (hsmc-macros/src/parse.rs) on the items that are lists.
use Prim.Native.String.{String}
use hsmc.Input.{Handler, During}
use hsmc.Parse.Filling.{Draft, push_handlers, entry, exit, on, during}
use hsmc.Parse.{parse_item}
use hsmc.Parse.Print.{
  IsWord, IsDuring, AreHandlers, print_more, print_names, print_trigger, print_handlers,
  print_durings, print_fields,
}
use hsmc.Parse.Reading.{item-IsWord}
use hsmc.Parse.Reading.Items.{names_item-print, on_item-print, during_item-print}
use hsmc.Prelude.{
  ℕ, ◌+◌, ◌≤◌, ◌≡◌, refl, Bool, List, [], ◌∷◌, ◌++◌, length, All, arith, ◌∙◌, ap, sym, append_assoc,
  append-nil,
}
use hsmc.Syn.{Syn, Tokens, size, ident, punct, group, paren, colon, semi, arrow}
use hsmc.Parse.Rounds.{
  Comes, Comes-refl, Comes-trans, Comes-eq, item_round, set_entries, set_exits, set_handlers,
  set_durings,
}

module _ (syn : Syn) where
  more_size : (xs : List String) (rest : Tokens) → size rest ≤ size (print_more syn xs rest)
  unfolding print_more size
  more_size [] rest = omega arith
  more_size (x ∷ xs) rest = omega (arith, more_size xs rest)

  pub entries_round :
      (is_root : Bool) (xs : List String) (rest : Tokens) (d : Draft)
      → All (IsWord syn) xs
      → Comes syn is_root
          (print_names syn "entry" xs rest)
          (set_entries [] d)
          rest
          (set_entries xs d)
  unfolding print_names parse_item size
  entries_round is_root [] rest d words = Comes-refl syn is_root rest (set_entries [] d)
  entries_round is_root (x ∷ xs) rest d words =
      item_round syn is_root "entry" entry
        (punct colon (ident x (print_more syn xs (punct semi rest)))) rest (set_entries [] d)
        (set_entries (x ∷ xs) d) (item-IsWord syn 3 refl) refl refl
        (rw (names_item-print syn x xs rest words.0 words.1, parse_item))
        (omega (arith, more_size xs (punct semi rest)))

  pub exits_round :
      (is_root : Bool) (xs : List String) (rest : Tokens) (d : Draft)
      → All (IsWord syn) xs
      → Comes syn is_root (print_names syn "exit" xs rest) (set_exits [] d) rest (set_exits xs d)
  unfolding print_names parse_item size
  exits_round is_root [] rest d words = Comes-refl syn is_root rest (set_exits [] d)
  exits_round is_root (x ∷ xs) rest d words =
      item_round syn is_root "exit" exit
        (punct colon (ident x (print_more syn xs (punct semi rest)))) rest (set_exits [] d)
        (set_exits (x ∷ xs) d) (item-IsWord syn 4 refl) refl refl
        (rw (names_item-print syn x xs rest words.0 words.1, parse_item))
        (omega (arith, more_size xs (punct semi rest)))

  handler-eta :
      (h : Handler) (n : ℕ)
      → h.decl_index ≡ n
      → record { trigger = h.trigger; target = h.target; decl_index = n } ≡ h
  handler-eta h n e =
      ap (λ k. record { trigger = h.trigger; target = h.target; decl_index = k }) (sym e)

  pub handlers_rounds :
      (is_root : Bool) (hs before : List Handler) (n : ℕ) (rest : Tokens) (d : Draft)
      → AreHandlers syn n hs
      → Comes syn is_root
          (print_handlers syn hs rest)
          (set_handlers before n d)
          rest
          (set_handlers (before ++ hs) (n + length hs) d)
  unfolding print_handlers parse_item push_handlers size
  handlers_rounds is_root [] before n rest d all =
      Comes-eq syn (Comes-refl syn is_root rest (set_handlers before n d)) (
        ap (λ l. set_handlers l n d) (sym (append-nil before))
        ∙ ap (λ k. set_handlers (before ++ []) k d) (omega arith))
  handlers_rounds is_root (h ∷ hs) before n rest d all =
      let more = print_handlers syn hs rest in
      let h' : Handler = record { trigger = h.trigger; target = h.target; decl_index = n } in
      let one =
        item_round syn is_root "on" on
          (group paren (print_trigger syn h.trigger)
            (punct arrow (ident h.target (punct semi more))))
          more (set_handlers before n d) (set_handlers (before ++ h' ∷ []) (n + 1) d)
          (item-IsWord syn 7 refl) refl refl
          (rw (on_item-print syn h.trigger h.target more all.1 all.2, parse_item)) (omega arith) in
      let same = ap (λ g. set_handlers (before ++ g ∷ []) (n + 1) d) (handler-eta h n all.0) in
      Comes-eq syn
        (Comes-trans syn (Comes-eq syn one same)
          (handlers_rounds is_root hs (before ++ h ∷ []) (n + 1) rest d all.3))
        (ap (λ l. set_handlers l ((n + 1) + length hs) d) (append_assoc before (h ∷ []) hs)
          ∙ ap (λ k. set_handlers (before ++ h ∷ hs) k d) (omega arith))

  pub durings_rounds :
      (is_root : Bool) (ds before : List During) (rest : Tokens) (d : Draft)
      → All (IsDuring syn) ds
      → Comes syn is_root
          (print_durings syn ds rest)
          (set_durings before d)
          rest
          (set_durings (before ++ ds) d)
  unfolding print_durings parse_item size
  durings_rounds is_root [] before rest d all =
      Comes-eq syn (Comes-refl syn is_root rest (set_durings before d))
        (ap (λ l. set_durings l d) (sym (append-nil before)))
  durings_rounds is_root (x ∷ ds) before rest d all =
      let more = print_durings syn ds rest in
      let one =
        item_round syn is_root "during" during
          (punct colon
            (ident x.fn_name (group paren (print_fields syn x.fields) (punct semi more))))
          more (set_durings before d) (set_durings (before ++ x ∷ []) d) (item-IsWord syn 8 refl)
          refl refl (rw (during_item-print syn x more all.0, parse_item)) (omega arith) in
      Comes-eq syn (Comes-trans syn one (durings_rounds is_root ds (before ++ x ∷ []) rest d all.1))
        (ap (λ l. set_durings l d) (append_assoc before (x ∷ []) ds))
