-- ===== src/Parse/Accepted.antt =====
-- `parse_body` and the entry of hsmc-macros/src/parse.rs: the fuel is enough for every stream, and the
-- parser accepts only trees that the grammar writes.
use Prim.Native.String.{String}
use text.Mathlib.Text.{◌==◌ as str_eq}
use hsmc.Input.{Trigger, Handler, StateBody, StateDecls, StatechartInput, body, nil, cons}
use hsmc.Parse.Filling.{
  Item, Draft, new_draft, push_child, push_handlers, or_keep, keyword, context, events, trace,
  entry, exit, default, terminate, on, during,
}
use hsmc.Parse.{parse_item, parse_body, parse}
use hsmc.Parse.Ensures.{
  Ensures, holds, fails, Ensures-bind, Ensures-if, Ensures-elim, Ensures-option, Ensures-accepted,
  Ensures-ne,
}
use hsmc.Parse.Print.{
  IsWord, IsTrigger, IsDuring, AreHandlers, IsGiven, AreItems, IsBody, AreChildren, IsInput,
}
use hsmc.Parse.Sound.{
  ident-Reads, punct-Ensures, group-Ensures, finish-Ensures, type_item-Ensures, names_item-Reads,
  named_item-Reads, on_item-Ensures, during_item-Reads,
}
use hsmc.Prelude.{
  ℕ, zero, suc, ◌+◌, ◌<◌, ◌≡◌, ◌≢◌, refl, Bool, true, false, Option, none, some, List, [], ◌∷◌,
  ◌++◌, length, All, All-append, arith,
}
use hsmc.Refusal.{accepted, refused, out_of_fuel}
use hsmc.Syn.{Syn, Tokens, is_empty, size, brace, semi}

module _ (syn : Syn) where
  -- What holds of the body while it is filled.
  record IsDraft (is_root : Bool) (d : Draft) : Type 0 where
    pub of_items : AreItems syn is_root d.items
    pub of_children : AreChildren syn d.children
    pub counted : length d.items.handlers ≡ d.decl_index

  new_draft-IsDraft : (is_root : Bool) → IsDraft is_root new_draft
  unfolding AreChildren
  new_draft-IsDraft is_root = record {
    of_items = record {
      no_context = λ h. refl;
      no_events = λ h. refl;
      no_trace = λ h. refl;
      terminates = refl;
      defaults = refl;
      entered = tt;
      exited = tt;
      handled = tt;
      during = tt;
    };
    of_children = tt;
    counted = refl;
  }

  push_child-AreChildren :
      (kids : StateDecls) (name : String) (b : StateBody)
      → AreChildren syn kids
      → IsWord syn name
      → IsBody syn false b
      → AreChildren syn (push_child kids name b)
  unfolding AreChildren push_child
  push_child-AreChildren nil name b k word fine = (word, fine, tt)
  push_child-AreChildren (cons n c rest) name b k word fine =
      (k.0, k.1, push_child-AreChildren rest name b k.2 word fine)

  AreHandlers-snoc :
      (n : ℕ) (hs : List Handler) (h : Handler)
      → AreHandlers syn n hs
      → h.decl_index ≡ n + length hs
      → IsTrigger syn h.trigger
      → IsWord syn h.target
      → AreHandlers syn n (hs ++ h ∷ [])
  AreHandlers-snoc n [] h all e t w = (omega (arith, e), t, w, tt)
  AreHandlers-snoc n (g ∷ hs) h all e t w =
      (all.0, all.1, all.2, AreHandlers-snoc (n + 1) hs h all.3 (omega (arith, e)) t w)

  length-snoc : (hs : List Handler) (h : Handler) → length (hs ++ h ∷ []) ≡ length hs + 1
  length-snoc [] h = omega arith
  length-snoc (g ∷ hs) h = omega (arith, length-snoc hs h)

  push_handlers-IsDraft :
      (is_root : Bool) (trig : Trigger) (targets : List String) (d : Draft)
      → IsTrigger syn trig
      → All (IsWord syn) targets
      → IsDraft is_root d
      → IsDraft is_root (push_handlers trig targets d)
  unfolding push_handlers
  push_handlers-IsDraft is_root trig [] d t words fine = fine
  push_handlers-IsDraft is_root trig (target ∷ rest) d t words fine =
      let h : Handler = record { trigger = trig; target = target; decl_index = d.decl_index } in
      let more : AreHandlers syn 0 (d.items.handlers ++ h ∷ []) =
        AreHandlers-snoc 0 d.items.handlers h fine.of_items.handled (omega (arith, fine.counted)) t
          words.0 in
      push_handlers-IsDraft is_root trig rest _ t words.1 (record {
        of_items = assumption;
        of_children = fine.of_children;
        counted = omega (arith, fine.counted, length-snoc d.items.handlers h);
      })

  or_keep-IsGiven :
      (o : Option String) (n : ℕ) (s : String)
      → IsGiven syn o n
      → IsWord syn s
      → IsGiven syn (or_keep o s) (n + 1)
  or_keep-IsGiven none n s h word = (word, omega arith)
  or_keep-IsGiven (some t) n s h word = (h.0, omega arith)

  parse_item-Ensures :
      (is_root : Bool) (item : Item) (ts : Tokens) (d : Draft)
      → IsDraft is_root d
      → Ensures (λ r. IsDraft is_root r.0 × (size r.1 < size ts)) (parse_item syn is_root item ts d)
  unfolding parse_item
  parse_item-Ensures is_root context ts d fine = Ensures-bind (type_item-Ensures syn ts) λ ty less.
      Ensures-if is_root
        (λ root.
          let no_context : is_root ≡ false → some ty.0 ≡ none = λ h. cc in holds (assumption, less))
        (λ inner. fails (λ h. cc))
  parse_item-Ensures is_root events ts d fine = Ensures-bind (type_item-Ensures syn ts) λ ty less.
      Ensures-if is_root
        (λ root.
          let no_events : is_root ≡ false → some ty.0 ≡ none = λ h. cc in holds (assumption, less))
        (λ inner. fails (λ h. cc))
  parse_item-Ensures is_root trace ts d fine = Ensures-bind (punct-Ensures syn semi ts) λ rest less.
      Ensures-if is_root
        (λ root.
          Ensures-if d.items.trace_enabled (λ twice. fails (λ h. cc))
            λ once.
              let no_trace : is_root ≡ false → true ≡ false = λ h. cc in holds (assumption, less))
        (λ inner. fails (λ h. cc))
  parse_item-Ensures is_root entry ts d fine = Ensures-bind (names_item-Reads syn ts) λ names read.
      let entered = All-append (IsWord syn) d.items.entries names.0 fine.of_items.entered read.0 in
      holds (assumption, read.1)
  parse_item-Ensures is_root exit ts d fine = Ensures-bind (names_item-Reads syn ts) λ names read.
      let exited = All-append (IsWord syn) d.items.exits names.0 fine.of_items.exited read.0 in
      holds (assumption, read.1)
  parse_item-Ensures is_root default ts d fine =
      Ensures-bind (named_item-Reads syn ts) λ child read.
        let defaults =
          or_keep-IsGiven d.items.default_child d.items.default_count child.0 fine.of_items.defaults
            read.0 in
        holds (assumption, read.1)
  parse_item-Ensures is_root terminate ts d fine = Ensures-bind (named_item-Reads syn ts) λ ev read.
      let terminates =
        or_keep-IsGiven d.items.terminate d.items.terminate_count ev.0 fine.of_items.terminates
          read.0 in
      holds (assumption, read.1)
  parse_item-Ensures is_root on ts d fine =
      Ensures-bind (on_item-Ensures syn ts)
        λ r read. holds (push_handlers-IsDraft is_root r.0 r.1 d read.0 read.1 fine, read.2)
  parse_item-Ensures is_root during ts d fine = Ensures-bind (during_item-Reads syn ts) λ r read.
      let during =
        All-append (IsDuring syn) d.items.durings (r.0 ∷ []) fine.of_items.during (read.0, tt) in
      holds (assumption, read.1)

  parse_body-Ensures :
      (fuel : ℕ) (is_root : Bool) (ts : Tokens) (d : Draft)
      → size ts < fuel
      → IsDraft is_root d
      → Ensures (IsDraft is_root) (parse_body syn fuel is_root ts d)
  unfolding parse_body IsBody
  parse_body-Ensures zero is_root ts d enough fine = absurd (omega arith)
  parse_body-Ensures (suc fuel) is_root ts d enough fine =
      Ensures-elim (is_empty ts) (λ e. holds fine)
        λ e.
          Ensures-option (syn.parse_ident ts) (λ h. fails (λ h'. cc))
            λ r h.
              let less = syn.ident_shrinks ts r.0 r.1 h in
              Ensures-elim (str_eq r.0 "state")
                (λ is_state. Ensures-bind (ident-Reads syn r.1) λ child word.
                  Ensures-bind (group-Ensures syn brace child.1) λ g fewer.
                    Ensures-bind
                      (parse_body-Ensures fuel false g.0 new_draft (omega arith)
                        (new_draft-IsDraft false))
                      λ inner filled. parse_body-Ensures fuel is_root g.1 _ (omega arith) (record {
                        of_items = fine.of_items;
                        of_children =
                            push_child-AreChildren d.children child.0
                              (body inner.items inner.children) fine.of_children word.0
                              (filled.of_items, filled.of_children);
                        counted = fine.counted;
                      }))
                λ other.
                  Ensures-option (keyword r.0) (λ h'. fails (λ h''. cc))
                    λ item h'.
                      Ensures-bind (parse_item-Ensures is_root item r.1 d fine) λ next read.
                        parse_body-Ensures fuel is_root next.1 next.0 (omega arith) read.0

  parse-Ensures : (ts : Tokens) → Ensures (IsInput syn) (parse syn ts)
  unfolding parse IsBody
  parse-Ensures ts = Ensures-bind (ident-Reads syn ts) λ name word.
      Ensures-bind (group-Ensures syn brace name.1) λ g less.
        Ensures-bind
          (parse_body-Ensures (1 + size g.0) true g.0 new_draft (omega arith)
            (new_draft-IsDraft true))
          λ d fine.
            Ensures-bind (finish-Ensures syn g.1)
              λ left u. holds (word.0, (fine.of_items, fine.of_children))

  -- The parser returns for every stream: the rounds of its loops are enough.
  pub parse-ne-out_of_fuel : (ts : Tokens) → parse syn ts ≢ refused out_of_fuel
  parse-ne-out_of_fuel ts = Ensures-ne (parse-Ensures ts)

  -- The parser accepts only trees that the grammar writes.
  pub parse-IsInput :
      (ts : Tokens) (input : StatechartInput) → parse syn ts ≡ accepted input → IsInput syn input
  parse-IsInput ts input h = Ensures-accepted (parse-Ensures ts) h
