-- ===== src/Codegen/Text/Correct.antt =====
-- emit_state_chart_string of hsmc-macros/src/codegen.rs draws the parsed tree.
use Prim.Native.String.{String, ◌++◌ as joined}
use text.Mathlib.TextLemmas.{append_assoc as join_assoc}
use hsmc.Codegen.Text.{
  render_own, render_state, render_children, emit_state_chart_string, is_default, is_last,
}
use hsmc.Codegen.Text.Drawing.{
  written, indented, head_line, item_lines, is_nil, is_named, state_lines, child_lines, root_lines,
  chart_lines,
}
use hsmc.Codegen.Text.Own.{written-append, render_own-lines}
use hsmc.Input.{StateBody, StateDecls, StatechartInput, body, nil, cons}
use hsmc.Ir.{Ir, StateIr}
use hsmc.Lower.Bodies.{collect_state_names}
use hsmc.Lower.Bodies.Grows.{nesting, deepest}
use hsmc.Lower.Bodies.Interned.{tables}
use hsmc.Lower.Bodies.Means.{BodyMeans, ChildrenMean}
use hsmc.Prelude.{
  ℕ, zero, suc, ◌+◌, ◌<◌, ◌≤◌, ◌≡◌, ◌∙◌, ap, sym, refl, Bool, some, ◌>>=◌, List, [], ◌∷◌, get_elem?,
  arith,
}

-- A child is marked as the default of its state exactly if it goes by the name.
abbrev pub MarksDefaults : List StateIr → Type 0
MarksDefaults states =
    (s c : ℕ) (st ct : StateIr)
    → get_elem? states s ≡ some st
    → get_elem? states c ≡ some ct
    → ct.parent ≡ some s
    → is_default c st.default_child ≡ is_named ct.name st.default_target_ident

module _ (ir : Ir) (names : List String) (marks : MarksDefaults ir.states) where
  is_last-nil :
      (sid least : ℕ) (cs : List ℕ) (kids : StateDecls)
      → ChildrenMean (tables ir) names ir.states sid least cs kids
      → is_last cs ≡ is_nil kids
  unfolding ChildrenMean
  is_last-nil sid least [] nil m = refl
  is_last-nil sid least [] (cons name b rest) m = absurd m
  is_last-nil sid least (c ∷ cs) nil m = absurd m
  is_last-nil sid least (c ∷ cs) (cons name b rest) m = refl

  mutual
    unfolding BodyMeans state_lines render_state nesting

    render_state-lines :
        (fuel sid : ℕ) (st : StateIr) (b : StateBody) (prefix : String) (last marked : Bool)
        (out : String)
        → nesting b < fuel
        → get_elem? ir.states sid ≡ some st
        → BodyMeans (tables ir) names ir.states sid b
        → render_state fuel ir sid prefix last marked out
          ≡ some (written out (state_lines prefix names last marked st.name b))
    render_state-lines zero sid st b prefix last marked out low at m = absurd (omega (arith, low))
    render_state-lines (suc fuel) sid st (body items kids) prefix last marked out low at
          (s, here, means, children) =
        let same : st ≡ s = cc in
        let p = indented prefix last in
        let own = head_line prefix last marked st.name ∷ item_lines p names items in
        let draw = λ (c : ℕ) (l k : Bool) (o : String). render_state fuel ir c p l k o in
        let rest =
          λ (q : StateIr). (λ (o : String). render_children draw q.default_child q.children o) in
        ap (λ o. o >>= (λ (q : StateIr). render_own ir q prefix last marked out >>= rest q)) here
        ∙ ap (λ o. o >>= rest s) (render_own-lines ir names items s prefix last marked out means)
        ∙ render_children-lines fuel sid (sid + 1) s s.children kids p
            (written out (head_line prefix last marked s.name ∷ item_lines p names items))
            (omega arith) here children
        ∙ ap (λ x. some x)
            (ap
                (λ d.
                  written
                    (written out (head_line prefix last marked s.name ∷ item_lines p names items))
                    (child_lines p names d kids))
                means.default_target
              ∙ sym (
                  written-append out
                    (head_line prefix last marked s.name ∷ item_lines p names items)
                    (child_lines p names items.default_child kids))
              ∙ ap
                  (λ (q : StateIr).
                    written out (state_lines prefix names last marked q.name (body items kids)))
                  (sym same))

    render_children-lines :
        (fuel sid least : ℕ) (st : StateIr) (cs : List ℕ) (kids : StateDecls) (prefix out : String)
        → deepest kids ≤ fuel
        → get_elem? ir.states sid ≡ some st
        → ChildrenMean (tables ir) names ir.states sid least cs kids
        → render_children (λ c l k o. render_state fuel ir c prefix l k o) st.default_child cs out
          ≡ some (written out (child_lines prefix names st.default_target_ident kids))
    render_children-lines fuel sid least st [] nil prefix out low at m = refl
    render_children-lines fuel sid least st [] (cons name b rest) prefix out low at m = absurd m
    render_children-lines fuel sid least st (c ∷ cs) nil prefix out low at m = absurd m
    render_children-lines fuel sid least st (c ∷ cs) (cons name b rest) prefix out low at
          (le, (ct, there, called, under), inner, others) =
        let draw = λ (i : ℕ) (l k : Bool) (o : String). render_state fuel ir i prefix l k o in
        let next = λ (o : String). render_children draw st.default_child cs o in
        let last = is_nil rest in
        let marked = is_named name st.default_target_ident in
        let first = state_lines prefix names last marked name b in
        ap (λ l. draw c l (is_default c st.default_child) out >>= next)
          (is_last-nil sid least cs rest others)
        ∙ ap (λ k. draw c last k out >>= next)
            (marks sid c st ct at there under ∙ ap (λ n. is_named n st.default_target_ident) called)
        ∙ ap (λ o. o >>= next)
            (render_state-lines fuel c ct b prefix last marked out (omega arith) there inner
              ∙ ap (λ n. some (written out (state_lines prefix names last marked n b))) called)
        ∙ render_children-lines fuel sid least st cs rest prefix (written out first) (omega arith)
            at others
        ∙ ap (λ x. some x)
            (sym (written-append out first (child_lines prefix names st.default_target_ident rest)))

  root-lines :
      (fuel : ℕ) (b : StateBody)
      → nesting b ≤ fuel
      → BodyMeans (tables ir) names ir.states 0 b
      → emit_state_chart_string fuel ir
        ≡ some (written (joined (joined "" ir.name) "\n") (root_lines names b))
  unfolding BodyMeans emit_state_chart_string nesting
  root-lines fuel (body items kids) low (root, here, means, children) =
      let draw = λ (c : ℕ) (l k : Bool) (o : String). render_state fuel ir c "" l k o in
      let start = joined (joined "" ir.name) "\n" in
      ap (λ o. o >>= (λ (q : StateIr). render_children draw q.default_child q.children start)) here
      ∙ render_children-lines fuel 0 1 root root.children kids "" start (omega arith) here children
      ∙ ap (λ d. some (written start (child_lines "" names d kids))) means.default_target

pub emit_state_chart_string-lines :
    (fuel : ℕ) (input : StatechartInput) (ir : Ir)
    → nesting input.root ≤ fuel
    → ir.name ≡ input.name
    → MarksDefaults ir.states
    → BodyMeans (tables ir) (input.name ∷ collect_state_names input.root) ir.states 0 input.root
    → emit_state_chart_string fuel ir ≡ some (written "" (chart_lines input))
emit_state_chart_string-lines fuel input ir low named marks m =
    let names = input.name ∷ collect_state_names input.root in
    root-lines ir names marks fuel input.root low m
    ∙ ap (λ n. some (written (joined (joined "" n) "\n") (root_lines names input.root))) named
    ∙ ap (λ o. some (written o (root_lines names input.root))) (join_assoc "" input.name "\n")
