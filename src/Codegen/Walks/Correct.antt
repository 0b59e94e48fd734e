-- ===== src/Codegen/Walks/Correct.antt =====
-- `compute_one` of hsmc-macros/src/codegen.rs against the active paths of its two states.
use hsmc.Prelude.{
  ==→≢, zero, suc, ◌++◌, All, All-map, All-reverse, Bool-cases, ==→≡, ◌==◌, reverse, subst, sym, [],
  ◌∷◌, List, Option-cases, refl, ap, ℕ, ◌-◌, ◌≤◌, ◌<◌, ◌≡◌, ◌≢◌, inl, inr, true, Option, some,
  arith,
}
use hsmc.Codegen.Walks.{lca, is_strict_ancestor, compute_one}
use mathlib.Core.List.{reverse-reverse}
use hsmc.Codegen.Walks.Tree.{
  chain-step, chain-root, IsTree, Above, up, chain, Above-le, depth-Above, Above-cases, Above-trans,
}
use hsmc.Codegen.Walks.Reach.{
  IsPathTo, up_walk_lem, lateral_walk_lem, passes_sound, passes_complete, climb_lem, climb-Above,
  meet_lem,
}

-- What a transition from `from` to `to` may do to the active path. `kept` is the part of the path
-- that stays active: the exits leave exactly what is above it, and the entries, outermost first,
-- build the path of the target on it.
pub record Moves (parent : ℕ → Option ℕ) (from to : ℕ) (exit enter : List ℕ) : Type 0 where
  pub kept : List ℕ
  pub leaves : chain parent from ≡ exit ++ kept
  pub arrives : chain parent to ≡ reverse enter ++ kept
  -- a self transition leaves its state and enters it again
  pub renewed : from ≡ to → (exit ≡ from ∷ []) × (enter ≡ to ∷ [])
  -- a state active before and after is touched by a self transition only
  pub exits_needed : from ≢ to → All (λ x. ¬ (Above parent x to)) exit
  pub enters_needed : from ≢ to → All (λ x. ¬ (Above parent x from)) enter

module _ {n : ℕ} {parent : ℕ → Option ℕ} {depth : ℕ → ℕ} (tree : IsTree n parent depth) where
  is_strict_ancestor_sound :
      (fuel anc s : ℕ) → is_strict_ancestor parent fuel anc s ≡ true → Above parent anc s
  unfolding is_strict_ancestor
  is_strict_ancestor_sound fuel anc s h =
      let (p, e, r) = passes_sound tree fuel anc (parent s) h in up e r

  pub is_strict_ancestor_complete :
      (fuel : ℕ) {anc s : ℕ}
      → s < fuel
      → anc ≢ s
      → Above parent anc s
      → is_strict_ancestor parent fuel anc s ≡ true
  unfolding is_strict_ancestor
  is_strict_ancestor_complete fuel {anc} {s} h differ r = elim (Above-cases r) [
    | inl same ↦ absurd (differ same)
    | inr (p, e, r') ↦ rw e (passes_complete tree fuel (omega (arith, tree.smaller s p e)) r')
  ]

  -- With as much fuel as there are states and more than the depth of the first, `lca` of two states
  -- returns, and what it returns is their lowest common ancestor.
  lca_lem :
      (fuel a b : ℕ)
      → n ≤ fuel
      → depth a < fuel
      → a < n
      → b < n
      → (l : ℕ) × (lca parent depth fuel a b ≡ some l)
        × Above parent l a
        × Above parent l b
        × ((c : ℕ) → Above parent c a → Above parent c b → Above parent c l)
  unfolding lca
  lca_lem fuel a b hf hd ha hb =
      let (a', ea, ra, la) = climb_lem tree (depth a - depth b) a ha (omega arith) in
      let (b', eb, rb, lb) = climb_lem tree (depth b - depth a) b hb (omega arith) in
      let (l, em, rl, rl', low) =
        meet_lem tree fuel a' b' (omega (arith, Above-le tree ra)) (omega (arith, Above-le tree rb))
          (omega arith) (omega arith) in
      (
        l,
        ground arith,
        Above-trans ra rl,
        Above-trans rb rl',
        λ c r s.
            low c (climb-Above tree c ra r (omega (arith, depth-Above tree r, depth-Above tree s)))
              (climb-Above tree c rb s (omega (arith, depth-Above tree r, depth-Above tree s))),
      )

  depth-le : (fuel s : ℕ) → s < fuel → s < n → depth s ≤ s
  depth-le zero s h b = elim h [ ]
  depth-le (suc fuel) s h b = elim (Option-cases (parent s)) [
    | inl e ↦ omega (arith, tree.shallow, ap depth (tree.rooted s b e), tree.rooted s b e)
    | inr (p, e) ↦
        let lt : p < s = tree.smaller s p e in
        omega (arith, tree.deeper s p e, depth-le fuel p (omega arith) (omega arith))
  ]

  Above-clash :
      {s l : ℕ} (t : ℕ) (path : List ℕ)
      → ((c : ℕ) → Above parent c s → Above parent c t → Above parent c l)
      → All (λ x. Above parent x s × (l < x)) path
      → All (λ x. ¬ (Above parent x t)) path
  Above-clash t path low h =
      All-map (λ x q r. absurd (omega (arith, q.1, Above-le tree (low x q.0 r)))) path h

  Moves-up :
      {from to : ℕ} {exit : List ℕ}
      → from ≢ to
      → IsPathTo parent from to exit
      → Moves parent from to exit []
  Moves-up {from} {to} {exit} apart path = record {
    renewed = λ same. absurd (apart same);
    kept = chain parent to;
    leaves = path.splits;
    arrives = refl;
    exits_needed = λ differ. Above-clash to exit (λ c r s. s) path.below;
    enters_needed = λ differ. tt;
  }

  Moves-self : (s : ℕ) → s < n → Moves parent s s (s ∷ []) (s ∷ [])
  Moves-self s b = elim (Option-cases (parent s)) [
    | inl e ↦ record {
      kept = [];
      renewed = λ same. (refl, refl);
      leaves = chain-root tree s e;
      arrives = chain-root tree s e;
      exits_needed = λ differ. absurd (differ refl);
      enters_needed = λ differ. absurd (differ refl);
    }
    | inr (p, e) ↦ record {
      kept = chain parent p;
      renewed = λ same. (refl, refl);
      leaves = chain-step tree s p e;
      arrives = chain-step tree s p e;
      exits_needed = λ differ. absurd (differ refl);
      enters_needed = λ differ. absurd (differ refl);
    }
  ]

  Moves-lateral :
      {from to l : ℕ} {exit rev : List ℕ}
      → from ≢ to
      → ((c : ℕ) → Above parent c from → Above parent c to → Above parent c l)
      → IsPathTo parent from l exit
      → IsPathTo parent to l rev
      → Moves parent from to exit (reverse rev)
  Moves-lateral {from} {to} {l} {exit} {rev} apart low out back = record {
    renewed = λ same. absurd (apart same);
    kept = chain parent l;
    leaves = out.splits;
    arrives = rw (reverse-reverse rev) back.splits;
    exits_needed = λ differ. Above-clash to exit low out.below;
    enters_needed =
        λ differ. All-reverse _ rev (Above-clash from rev (λ c r s. low c s r) back.below);
  }

  -- With as much fuel as there are states, the exit and the enter path of a transition between two
  -- states are found. The exits leave the top of the active path of `from`, innermost first; the
  -- entries, outermost first, build the active path of `to` on the rest. No state that is active before
  -- and after is touched, except that a self transition leaves its state and enters it again.
  pub compute_one_lem :
      (fuel from to : ℕ)
      → n ≤ fuel
      → from < n
      → to < n
      → (exit enter : List ℕ) × (compute_one parent depth fuel from to ≡ some (exit, enter))
        × Moves parent from to exit enter
  unfolding compute_one
  compute_one_lem fuel from to hf ha hb = elim (Bool-cases (from == to)) [
    | inl same ↦ (
      to ∷ [],
      to ∷ [],
      ground arith,
      subst (λ x. Moves parent x to (to ∷ []) (to ∷ [])) (sym (==→≡ from to same))
          (Moves-self to hb),
    )
    | inr differ ↦ elim (Bool-cases (is_strict_ancestor parent fuel to from)) [
      | inl above ↦
          let (exit, found, path) =
            up_walk_lem tree fuel (omega arith) (is_strict_ancestor_sound fuel to from above) in
          (exit, [], ground arith, Moves-up (==→≢ from to differ) path)
      | inr beside ↦
          let (l, found, la, lb, low) =
            lca_lem fuel from to hf (omega (arith, depth-le (suc from) from (omega arith) ha)) ha
              hb in
          let (exit, out, path) = lateral_walk_lem tree fuel (omega arith) la in
          let (rev, back, path') = lateral_walk_lem tree fuel (omega arith) lb in
          (exit, reverse rev, ground arith, Moves-lateral (==→≢ from to differ) low path path')
    ]
  ]

  -- With that fuel, a transition to a strict ancestor has a path that enters nothing.
  compute_one-up :
      (fuel from to : ℕ)
      → n ≤ fuel
      → from < n
      → from ≢ to
      → Above parent to from
      → (exit : List ℕ) × (compute_one parent depth fuel from to ≡ some (exit, []))
  unfolding compute_one
  compute_one-up fuel from to hf ha differ r =
      let (exit, found, path) = up_walk_lem tree fuel (omega arith) r in
      (exit, ground (arith, is_strict_ancestor_complete fuel (omega arith) (λ e. differ (sym e)) r))
