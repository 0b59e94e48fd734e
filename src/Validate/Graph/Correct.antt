-- ===== src/Validate/Graph/Correct.antt =====
-- The outer loop of `validate_default_graph` in hsmc-macros/src/validate.rs against the default edges.
use hsmc.Ir.{StateIr}
use hsmc.Prelude.{
  ℕ, zero, suc, ◌+◌, ◌<◌, ◌≤◌, ◌≡◌, ◌∙◌, ◌==◌, ==→≡, ==→≢, Bool-cases, ◌≢◌, ap, sym, subst, refl,
  ◌⊎◌, inl, inr, some, some_case, List, [], length, get_elem?, get_elem?-some, arith,
}
use hsmc.Refusal.{Result, accepted}
use hsmc.Validate.Graph.{
  Color, white, gray, black, all_white, paint, check_starts, validate_default_graph,
}
use hsmc.Validate.Graph.Colors.{
  whites, whites-all_white, whites-paint, length-paint, paint-black, paint-gray,
}
use hsmc.Validate.Graph.Chase.{
  next_of, Ends, Color-cases, EndsBelow, Chasing, Ended, Cycles, chase-Ended,
}

module _ (states : List StateIr)
    (known : (s c : ℕ) → next_of states s ≡ some c → c < length states) where
  -- Between two starts: nothing is gray, and the defaults of what is done end.
  record Between (start : ℕ) (color : List Color) : Type 0 where
    size : length color ≡ length states
    blacks : (s : ℕ) → get_elem? color s ≡ some black → EndsBelow states color (length states) s
    grays : (s : ℕ) → get_elem? color s ≡ some gray → ⊥
    few : whites color ≤ length states
    before : (s : ℕ) → s < start → (k : ℕ) × Ends states s k × (k < length states)

  -- The start is done as well.
  one_more :
      (start : ℕ) (color : List Color)
      → Between start color
      → (k : ℕ) × Ends states start k × (k < length states)
      → Between (start + 1) color
  one_more start color h ends = record {
    size = h.size;
    blacks = h.blacks;
    grays = h.grays;
    few = h.few;
    before = λ s lt. elim (Bool-cases (s == start)) [
      | inl same ↦
          subst (λ x. (k : ℕ) × Ends states x k × (k < length states)) (sym (==→≡ s start same))
            ends
      | inr other ↦ let apart = ==→≢ s start other in h.before s (lt_of_ne s start lt apart)
    ];
  }
    where
      lt_of_ne : (a b : ℕ) → a < b + 1 → a ≢ b → a < b
      lt_of_ne a b h ne = ground (arith, h, ne)

  below-lt :
      (s : ℕ) (color : List Color)
      → EndsBelow states color (length states) s
      → (k : ℕ) × Ends states s k × (k < length states)
  below-lt s color (k, ends, below) = (k, ends, omega (arith, below))

  begin :
      (start : ℕ) (color : List Color)
      → Between start color
      → start < length states
      → Chasing states start color [] (length states)
  begin start color h lt = record {
    size = h.size;
    inside = lt;
    blacks = h.blacks;
    grays = λ s g. absurd (h.grays s g);
    behind = λ s i. absurd i;
    few = h.few;
  }

  -- A chain that has ended is painted.
  painted :
      (start : ℕ) (color : List Color) (r : Result (List Color × List ℕ))
      → Between start color
      → (t : Ended states start color [] (length states) r) → Between start (paint t.fresh t.color')
  painted start color r h t = record {
    size = length-paint t.fresh t.color' ∙ t.size ∙ h.size;
    blacks = λ s b. elim (paint-black t.fresh t.color' s b) [
      | inl old ↦
          let (k, ends, below) = h.blacks s (t.blacks s old) in
          (k, ends, omega (arith, below, t.fewer, whites-paint t.fresh t.color'))
      | inr new ↦
          let (k, ends, below) = t.fresh_end s new in
          (k, ends, omega (arith, below, whites-paint t.fresh t.color'))
    ];
    grays = λ s g.
        let (old, out) = paint-gray t.fresh t.color' s g in
        elim (t.grays s old) [ inl older ↦ h.grays s older | inr new ↦ out new ];
    few = omega (arith, h.few, t.fewer, whites-paint t.fresh t.color');
    before = h.before;
  }

  check_starts_lem :
      (left start : ℕ) (color : List Color)
      → start + left ≡ length states
      → Between start color
      → ((check_starts states left start color ≡ accepted tt)
          × ((s : ℕ) → s < length states → (k : ℕ) × Ends states s k × (k < length states)))
        ⊎ Cycles states (check_starts states left start color)
  unfolding check_starts
  check_starts_lem zero start color e h = inl (refl, λ s lt. h.before s (omega arith))
  check_starts_lem (suc left) start color e h =
      let P = λ (r : Result (Unit {0})).
        ((r ≡ accepted tt)
          × ((s : ℕ) → s < length states → (k : ℕ) × Ends states s k × (k < length states)))
        ⊎ Cycles states r in
      let (c, at) = get_elem?-some color start (omega (arith, h.size)) in
      elim (Color-cases c) [
        | inr (inl g) ↦ absurd (h.grays start (at ∙ ap some g))
        | inr (inr b) ↦ some_case (get_elem? color start) P _ _ black (at ∙ ap some b) (
            check_starts_lem left (start + 1) color (omega arith)
              (one_more start color h (below-lt start color (h.blacks start (at ∙ ap some b)))))
        | inl w ↦
            some_case (get_elem? color start) P _ _ white (at ∙ ap some w)
              (elim (chase-Ended states known (length states + 1) start color [] (length states)
                (omega (arith, h.few)) (begin start color h (omega arith))) [
                  | inr (names, s, stopped, lt, walk) ↦ inr (names, s, rw stopped, lt, walk)
                  | inl t ↦ rw t.result (
                      check_starts_lem left (start + 1) (paint t.fresh t.color') (omega arith) (
                        one_more start (paint t.fresh t.color') (painted start color _ h t)
                          (below-lt start t.color' t.ending)))
                ])
      ]

no_black : (n s : ℕ) {c : Color} → get_elem? (all_white n) s ≡ some c → c ≡ white
no_black zero s h = cc
no_black (suc n) zero h = cc
no_black (suc n) (suc s) h = no_black n s h

length-all_white : (n : ℕ) → length (all_white n) ≡ n
length-all_white zero = refl
length-all_white (suc n) = ap suc (length-all_white n)

-- On states whose defaults lead to states, the walk returns: it accepts, and then the defaults from
-- every state end after fewer edges than there are states, or it reports a cycle, and then some state
-- reaches itself over its default edges.
pub validate_default_graph_lem :
    (states : List StateIr)
    → ((s c : ℕ) → next_of states s ≡ some c → c < length states)
    → ((validate_default_graph states ≡ accepted tt)
        × ((s : ℕ) → s < length states → (k : ℕ) × Ends states s k × (k < length states)))
      ⊎ Cycles states (validate_default_graph states)
unfolding validate_default_graph
validate_default_graph_lem states known =
    let n = length states in
    check_starts_lem states known n 0 (all_white n) (omega arith) (record {
      size = length-all_white n;
      blacks = λ s b. absurd (let w = no_black n s b in cc);
      grays = λ s g. let w = no_black n s g in cc;
      few = omega (arith, whites-all_white n);
      before = λ s lt. absurd (omega arith);
    })
