-- ===== src/Parse/RoundTrip.antt =====
-- `parse` of hsmc-macros/src/parse.rs on the tokens that the grammar writes.
use Prim.Native.String.{String}
use hsmc.Input.{Items, StateBody, StateDecls, StatechartInput, body, nil, cons}
use hsmc.Parse.Filling.{Draft, new_draft, push_child}
use hsmc.Parse.{parse_body, parse}
use hsmc.Parse.Print.{
  IsWord, AreItems, IsBody, AreChildren, IsInput, print_items, print_body, print_children, print,
}
use hsmc.Parse.Reading.{ident-read, item-IsWord}
use hsmc.Parse.Rounds.{
  Comes, Comes-refl, Comes-trans, Comes-eq, context_round, events_round, trace_round,
  default_rounds, terminate_rounds, set_context, set_events, set_trace, set_terminate, set_default,
  set_entries, set_exits, set_handlers,
}
use hsmc.Parse.Rounds.Lists.{entries_round, exits_round, handlers_rounds, durings_rounds}
use hsmc.Prelude.{
  ℕ, zero, suc, ◌+◌, ◌<◌, ◌≡◌, refl, Bool, true, false, [], length, arith, ◌∙◌, ap, sym,
}
use hsmc.Refusal.{accepted}
use hsmc.Syn.{Syn, Tokens, size, done, ident, group, brace}

-- The children in order.
join : StateDecls → StateDecls → StateDecls
join nil kids = kids
join (cons name b rest) kids = cons name b (join rest kids)

join-push_child :
    (before : StateDecls) (name : String) (b : StateBody) (kids : StateDecls)
    → join (push_child before name b) kids ≡ join before (cons name b kids)
unfolding join push_child
join-push_child nil name b kids = refl
join-push_child (cons n c rest) name b kids =
    ap (λ l. cons n c l) (join-push_child rest name b kids)

join-nil : (before : StateDecls) → join before nil ≡ before
unfolding join
join-nil nil = refl
join-nil (cons n c rest) = ap (λ l. cons n c l) (join-nil rest)

-- The draft of a body when all is read.
abbrev draft_of : Items → StateDecls → Draft
draft_of items kids = record {
  items = items;
  children = kids;
  decl_index = 0 + length items.handlers;
}

abbrev set_children : StateDecls → Draft → Draft
set_children kids d = record d { children = kids }

module _ (syn : Syn) where
  items_rounds :
      (is_root : Bool) (items : Items) (rest : Tokens)
      → AreItems syn is_root items
      → Comes syn is_root (print_items syn items rest) new_draft rest (draft_of items nil)
  unfolding print_items
  items_rounds is_root items rest fine =
      let d1 = set_context items.context_ty new_draft in
      let d2 = set_events items.event_ty d1 in
      let d3 = set_trace items.trace_enabled d2 in
      let d4 = set_terminate items.terminate items.terminate_count d3 in
      let d5 = set_default items.default_child items.default_count d4 in
      let d6 = set_entries items.entries d5 in
      let d7 = set_exits items.exits d6 in
      let d8 = set_handlers items.handlers (0 + length items.handlers) d7 in
      Comes-trans syn (context_round syn is_root items.context_ty _ new_draft fine.no_context) (
        Comes-trans syn (events_round syn is_root items.event_ty _ d1 fine.no_events) (
          Comes-trans syn (trace_round syn is_root items.trace_enabled _ d2 fine.no_trace) (
            Comes-trans syn
              (terminate_rounds syn is_root items.terminate items.terminate_count _ d3
                fine.terminates)
              (Comes-trans syn
                (default_rounds syn is_root items.default_child items.default_count _ d4
                  fine.defaults)
                (Comes-trans syn (entries_round syn is_root items.entries _ d5 fine.entered) (
                  Comes-trans syn (exits_round syn is_root items.exits _ d6 fine.exited) (
                    Comes-trans syn
                      (handlers_rounds syn is_root items.handlers [] 0 _ d7 fine.handled)
                      (durings_rounds syn is_root items.durings [] rest d8 fine.during))))))))

  parse_body-done :
      (fuel : ℕ) (is_root : Bool) (d : Draft)
      → 0 < fuel
      → parse_body syn fuel is_root done d ≡ accepted d
  unfolding parse_body
  parse_body-done zero is_root d some_left = absurd (omega arith)
  parse_body-done (suc fuel) is_root d some_left = refl

  -- One round for a state whose body is read.
  state_round :
      (is_root : Bool) (name : String) (items : Items) (kids : StateDecls) (inner more : Tokens)
      (d : Draft)
      → IsWord syn name
      → ((fuel : ℕ)
          → size inner < fuel
          → parse_body syn fuel false inner new_draft ≡ accepted (draft_of items kids))
      → Comes syn is_root
          (ident "state" (ident name (group brace inner more)))
          d
          more
          (set_children (push_child d.children name (body items kids)) d)
  unfolding parse_body size
  state_round is_root name items kids inner more d word reads = record { run = round }
    where
      after : Tokens
      after = ident name (group brace inner more)

      round :
          (fuel : ℕ)
          → size (ident "state" after) < fuel
          → (left : ℕ) × (size more < left)
            × (parse_body syn fuel is_root (ident "state" after) d
                ≡ parse_body syn left is_root more
                    (set_children (push_child d.children name (body items kids)) d))
      round zero enough = absurd (omega arith)
      round (suc fuel) enough = (
        fuel,
        omega arith,
        rw (ident-read syn "state" after (item-IsWord syn 9 refl), parse_body)
            (rw (ident-read syn name (group brace inner more) word, syn.group_read brace inner more)
              (rw (reads fuel (omega arith)))),
      )

  -- A body is read whole if its states are.
  body_read :
      (is_root : Bool) (items : Items) (kids : StateDecls) (fuel : ℕ)
      → AreItems syn is_root items
      → Comes syn is_root (print_children syn kids) (draft_of items nil) done (draft_of items kids)
      → size (print_items syn items (print_children syn kids)) < fuel
      → parse_body syn fuel is_root (print_items syn items (print_children syn kids)) new_draft
        ≡ accepted (draft_of items kids)
  unfolding size
  body_read is_root items kids fuel fine children enough =
      let whole =
        Comes-trans syn (items_rounds is_root items (print_children syn kids) fine) children in
      let (left, some_left, e) = whole.run fuel enough in
      e ∙ parse_body-done left is_root (draft_of items kids) some_left

  children_rounds :
      (is_root : Bool) (kids before : StateDecls) (d : Draft)
      → AreChildren syn kids
      → Comes syn is_root
          (print_children syn kids)
          (set_children before d)
          done
          (set_children (join before kids) d)
  unfolding IsBody print_body join
  children_rounds is_root nil before d all =
      Comes-eq syn (Comes-refl syn is_root done (set_children before d))
        (ap (λ k. set_children k d) (sym (join-nil before)))
  children_rounds is_root (cons name (body items kids) rest) before d all =
      let inner = children_rounds false kids nil (draft_of items nil) all.1.1 in
      let one =
        state_round is_root name items kids (print_items syn items (print_children syn kids))
          (print_children syn rest) (set_children before d) all.0
          (λ fuel enough. body_read false items kids fuel all.1.0 inner enough) in
      Comes-eq syn
        (Comes-trans syn one
          (children_rounds is_root rest (push_child before name (body items kids)) d all.2))
        (ap (λ k. set_children k d) (join-push_child before name (body items kids) rest))

  -- Parsing what the grammar writes of a tree gives the tree.
  pub parse-print :
      (input : StatechartInput) → IsInput syn input → parse syn (print syn input) ≡ accepted input
  unfolding parse print IsBody join
  parse-print input fine = by_root input.name input.root fine
    where
      by_root :
          (name : String) (root : StateBody)
          → IsInput syn (record { name = name; root = root })
          → parse syn (print syn (record { name = name; root = root }))
            ≡ accepted (record { name = name; root = root })
      by_root name (body items kids) (word, all) =
          let inner = print_items syn items (print_children syn kids) in
          let children = children_rounds true kids nil (draft_of items nil) all.1 in
          let filled = body_read true items kids (1 + size inner) all.0 children (omega arith) in
          rw (ident-read syn name (group brace inner done) word, syn.group_read brace inner done)
            (rw filled)
