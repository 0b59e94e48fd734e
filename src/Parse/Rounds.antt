-- ===== src/Parse/Rounds.antt =====
-- The rounds of `parse_body` (hsmc-macros/src/parse.rs) on the items that the grammar writes.
pub mod Lists
use Prim.Native.String.{String}
use text.Mathlib.Text.{◌==◌ as str_eq}
use hsmc.Input.{Handler, During}
use hsmc.Parse.Filling.{Item, Draft, keyword, context, events, trace, default, terminate}
use hsmc.Parse.{parse_item, parse_body}
use hsmc.Parse.Print.{IsWord, IsGiven, print_type_item, print_trace, print_named, print_given}
use hsmc.Parse.Reading.{ident-read, item-IsWord}
use hsmc.Parse.Reading.Items.{named_item-print, type_item-print}
use hsmc.Prelude.{
  ℕ, zero, suc, ◌+◌, ◌<◌, ◌≡◌, refl, Bool, true, false, Option, none, some, List, arith, ◌∙◌, ap,
  sym, subst,
}
use hsmc.Refusal.{accepted}
use hsmc.Syn.{Syn, Tokens, size, done, ident, punct, group, paren, colon, semi, at_semi}

-- A draft with the items of one kind.
abbrev pub set_context : Option String → Draft → Draft
set_context o d = record d { items = record d.items { context_ty = o } }

abbrev pub set_events : Option String → Draft → Draft
set_events o d = record d { items = record d.items { event_ty = o } }

abbrev pub set_trace : Bool → Draft → Draft
set_trace b d = record d { items = record d.items { trace_enabled = b } }

abbrev pub set_default : Option String → ℕ → Draft → Draft
set_default o n d = record d { items = record d.items { default_child = o; default_count = n } }

abbrev pub set_terminate : Option String → ℕ → Draft → Draft
set_terminate o n d = record d { items = record d.items { terminate = o; terminate_count = n } }

abbrev pub set_entries : List String → Draft → Draft
set_entries xs d = record d { items = record d.items { entries = xs } }

abbrev pub set_exits : List String → Draft → Draft
set_exits xs d = record d { items = record d.items { exits = xs } }

abbrev pub set_handlers : List Handler → ℕ → Draft → Draft
set_handlers hs n d = record d { items = record d.items { handlers = hs }; decl_index = n }

abbrev pub set_durings : List During → Draft → Draft
set_durings ds d = record d { items = record d.items { durings = ds } }

module _ (syn : Syn) where
  -- From the tokens `ts` and the draft `d` the loop of `parse_body` comes to `us` and `e`.
  pub record Comes (is_root : Bool) (ts : Tokens) (d : Draft) (us : Tokens) (e : Draft)
      : Type 0 where
    pub run :
        (fuel : ℕ)
        → size ts < fuel
        → (left : ℕ) × (size us < left)
          × (parse_body syn fuel is_root ts d ≡ parse_body syn left is_root us e)

  pub Comes-refl : (is_root : Bool) (ts : Tokens) (d : Draft) → Comes is_root ts d ts d
  Comes-refl is_root ts d = record { run = λ fuel enough. (fuel, enough, refl) }

  pub Comes-trans :
      {is_root : Bool} {ts us vs : Tokens} {d e g : Draft}
      → Comes is_root ts d us e
      → Comes is_root us e vs g
      → Comes is_root ts d vs g
  Comes-trans h k = record {
    run = λ fuel enough.
        let (left, some_left, e) = h.run fuel enough in
        let (left', some_left', e') = k.run left some_left in (left', some_left', e ∙ e');
  }

  -- What is read may be stated by an equal draft.
  pub Comes-eq :
      {is_root : Bool} {ts us : Tokens} {d e e' : Draft}
      → Comes is_root ts d us e
      → e ≡ e'
      → Comes is_root ts d us e'
  Comes-eq {is_root} {ts} {us} {d} h same = subst (Comes is_root ts d us) same h

  -- One round for an item but a state.
  pub item_round :
      (is_root : Bool) (name : String) (item : Item) (ts us : Tokens) (d e : Draft)
      → IsWord syn name
      → str_eq name "state" ≡ false
      → keyword name ≡ some item
      → parse_item syn is_root item ts d ≡ accepted (e, us)
      → size us < size (ident name ts)
      → Comes is_root (ident name ts) d us e
  unfolding parse_body
  item_round is_root name item ts us d e word other known read less = record { run = round }
    where
      round :
          (fuel : ℕ)
          → size (ident name ts) < fuel
          → (left : ℕ) × (size us < left)
            × (parse_body syn fuel is_root (ident name ts) d ≡ parse_body syn left is_root us e)
      round zero enough = absurd (omega arith)
      round (suc fuel) enough = (
        fuel,
        omega (arith, less),
        rw (ident-read syn name ts word, parse_body) (rw (other, known, read)),
      )

  -- The tokens of a type are not lost.
  type_size : (t : String) (rest : Tokens) → size rest < size (syn.type_tokens t (punct semi rest))
  unfolding size
  type_size t rest =
      let less =
        syn.type_shrinks (syn.type_tokens t (punct semi rest)) t (punct semi rest)
          (syn.type_read t (punct semi rest) (at_semi rest)) in
      omega arith

  pub context_round :
      (is_root : Bool) (o : Option String) (rest : Tokens) (d : Draft)
      → (is_root ≡ false → o ≡ none)
      → Comes is_root
          (print_type_item syn "context" o rest)
          (set_context none d)
          rest
          (set_context o d)
  unfolding print_type_item parse_item size
  context_round is_root none rest d at_root = Comes-refl is_root rest (set_context none d)
  context_round false (some t) rest d at_root = cc (at_root refl)
  context_round true (some t) rest d at_root =
      let less = type_size t rest in
      item_round true "context" context (punct colon (syn.type_tokens t (punct semi rest))) rest
        (set_context none d) (set_context (some t) d) (item-IsWord syn 0 refl) refl refl
        (rw (type_item-print syn t rest, parse_item)) (omega arith)

  pub events_round :
      (is_root : Bool) (o : Option String) (rest : Tokens) (d : Draft)
      → (is_root ≡ false → o ≡ none)
      → Comes is_root
          (print_type_item syn "events" o rest)
          (set_events none d)
          rest
          (set_events o d)
  unfolding print_type_item parse_item size
  events_round is_root none rest d at_root = Comes-refl is_root rest (set_events none d)
  events_round false (some t) rest d at_root = cc (at_root refl)
  events_round true (some t) rest d at_root =
      let less = type_size t rest in
      item_round true "events" events (punct colon (syn.type_tokens t (punct semi rest))) rest
        (set_events none d) (set_events (some t) d) (item-IsWord syn 1 refl) refl refl
        (rw (type_item-print syn t rest, parse_item)) (omega arith)

  pub trace_round :
      (is_root : Bool) (b : Bool) (rest : Tokens) (d : Draft)
      → (is_root ≡ false → b ≡ false)
      → Comes is_root (print_trace syn b rest) (set_trace false d) rest (set_trace b d)
  unfolding print_trace parse_item size
  trace_round is_root false rest d at_root = Comes-refl is_root rest (set_trace false d)
  trace_round false true rest d at_root = cc (at_root refl)
  trace_round true true rest d at_root =
      item_round true "trace" trace (punct semi rest) rest (set_trace false d) (set_trace true d)
        (item-IsWord syn 2 refl) refl refl (rw (syn.punct_read semi rest, parse_item)) (omega arith)

  -- The item `default` or `terminate`, which `set` writes.
  module _ (is_root : Bool) (name : String) (item : Item) (set : Option String → ℕ → Draft → Draft)
      (word : IsWord syn name) (other : str_eq name "state" ≡ false)
      (known : keyword name ≡ some item)
      (first : (s : String) (rest : Tokens) (d : Draft)
        → IsWord syn s
        → parse_item syn is_root item (group paren (ident s done) (punct semi rest)) (set none 0 d)
          ≡ accepted (set (some s) (0 + 1) d, rest))
      (again : (s : String) (n : ℕ) (rest : Tokens) (d : Draft)
        → IsWord syn s
        → parse_item syn is_root item
            (group paren (ident s done) (punct semi rest))
            (set (some s) n d)
          ≡ accepted (set (some s) (n + 1) d, rest)) where
    named_rounds :
        (s : String) (k n : ℕ) (rest : Tokens) (d : Draft)
        → IsWord syn s
        → Comes is_root
            (print_named syn name s k rest)
            (set (some s) n d)
            rest
            (set (some s) (n + k) d)
    unfolding print_named size
    named_rounds s zero n rest d fine =
        Comes-eq (Comes-refl is_root rest (set (some s) n d))
          (ap (λ m. set (some s) m d) (omega arith))
    named_rounds s (suc k) n rest d fine =
        let more = print_named syn name s k rest in
        let one =
          item_round is_root name item (group paren (ident s done) (punct semi more)) more
            (set (some s) n d) (set (some s) (n + 1) d) word other known (again s n more d fine)
            (omega arith) in
        Comes-eq (Comes-trans one (named_rounds s k (n + 1) rest d fine))
          (ap (λ m. set (some s) m d) (omega arith))

    given_rounds :
        (o : Option String) (n : ℕ) (rest : Tokens) (d : Draft)
        → IsGiven syn o n
        → Comes is_root (print_given syn name o n rest) (set none 0 d) rest (set o n d)
    unfolding print_given size
    given_rounds none n rest d given =
        Comes-eq (Comes-refl is_root rest (set none 0 d)) (ap (λ m. set none m d) (sym given))
    given_rounds (some s) zero rest d given = absurd (omega arith)
    given_rounds (some s) (suc k) rest d given =
        let more = print_named syn name s k rest in
        let one =
          item_round is_root name item (group paren (ident s done) (punct semi more)) more
            (set none 0 d) (set (some s) (0 + 1) d) word other known (first s more d given.0)
            (omega arith) in
        Comes-eq (Comes-trans one (named_rounds s k (0 + 1) rest d given.0))
          (ap (λ m. set (some s) m d) (omega arith))

  pub default_rounds :
      (is_root : Bool) (o : Option String) (n : ℕ) (rest : Tokens) (d : Draft)
      → IsGiven syn o n
      → Comes is_root
          (print_given syn "default" o n rest)
          (set_default none 0 d)
          rest
          (set_default o n d)
  unfolding parse_item
  default_rounds is_root =
      given_rounds is_root "default" default set_default (item-IsWord syn 5 refl) refl refl
        (λ s rest d fine. rw (named_item-print syn s rest fine, parse_item))
        (λ s n rest d fine. rw (named_item-print syn s rest fine, parse_item))

  pub terminate_rounds :
      (is_root : Bool) (o : Option String) (n : ℕ) (rest : Tokens) (d : Draft)
      → IsGiven syn o n
      → Comes is_root
          (print_given syn "terminate" o n rest)
          (set_terminate none 0 d)
          rest
          (set_terminate o n d)
  unfolding parse_item
  terminate_rounds is_root =
      given_rounds is_root "terminate" terminate set_terminate (item-IsWord syn 6 refl) refl refl
        (λ s rest d fine. rw (named_item-print syn s rest fine, parse_item))
        (λ s n rest d fine. rw (named_item-print syn s rest fine, parse_item))
