-- ===== src/Codegen/Walks/Reach.antt =====
-- What each walk of hsmc-macros/src/codegen.rs finds on a state tree, with enough fuel.
use hsmc.Prelude.{
  ℕ, zero, suc, ◌+◌, ◌≤◌, ◌<◌, ◌≡◌, ◌≢◌, refl, sym, ap, ◌∙◌, inl, inr, true, Option, none, some,
  List, [], ◌∷◌, ◌++◌, ◌==◌, ==→≡, ==→≢, Bool-cases, Option-cases, All, All-map, arith,
}
use hsmc.Codegen.Walks.{climb, meet, passes, up_walk, lateral_walk, terminate_walk}
use hsmc.Codegen.Walks.Tree.{
  IsTree, Above, here, up, chain, chain-step, chain-root, Above-le, depth-Above, Above-strict,
  Above-cases,
}

-- `path` leads from `s` up to just below its ancestor `l`.
pub record IsPathTo (parent : ℕ → Option ℕ) (s l : ℕ) (path : List ℕ) : Type 0 where
  pub splits : chain parent s ≡ path ++ chain parent l
  pub below : All (λ x. Above parent x s × (l < x)) path

module _ {n : ℕ} {parent : ℕ → Option ℕ} {depth : ℕ → ℕ} (tree : IsTree n parent depth) where
  IsPathTo-step :
      {s p l : ℕ} {path : List ℕ}
      → parent s ≡ some p
      → l < s
      → IsPathTo parent p l path
      → IsPathTo parent s l (s ∷ path)
  IsPathTo-step {s} {p} {l} {path} e h r = record {
    splits = chain-step tree s p e ∙ ap (λ rest. s ∷ rest) r.splits;
    below = ((here, h), All-map (λ x q. (up e q.0, q.1)) path r.below);
  }

  IsPathTo-self : (s : ℕ) → IsPathTo parent s s []
  IsPathTo-self s = record { splits = refl; below = tt }

  -- Both loops that stop at an ancestor collect the states below it.
  pub up_walk_lem :
      {l s : ℕ} (fuel : ℕ)
      → s < fuel
      → Above parent l s
      → (path : List ℕ) × (up_walk parent fuel l s ≡ some path) × IsPathTo parent s l path
  unfolding up_walk
  up_walk_lem {l} {s} zero h r = elim h [ ]
  up_walk_lem {l} {s} (suc fuel) h here = ([], ground arith, IsPathTo-self s)
  up_walk_lem {l} {s} (suc fuel) h (up {p = p} e r) =
      let lt : p < s = tree.smaller s p e in
      let le : l ≤ p = Above-le tree r in
      let (path, found, good) = up_walk_lem fuel (omega arith) r in
      (s ∷ path, ground arith, IsPathTo-step e (omega arith) good)

  pub lateral_walk_lem :
      {l s : ℕ} (fuel : ℕ)
      → s < fuel
      → Above parent l s
      → (path : List ℕ) × (lateral_walk parent fuel (some l) s ≡ some path)
        × IsPathTo parent s l path
  unfolding lateral_walk
  lateral_walk_lem {l} {s} zero h r = elim h [ ]
  lateral_walk_lem {l} {s} (suc fuel) h here = ([], ground arith, IsPathTo-self s)
  lateral_walk_lem {l} {s} (suc fuel) h (up {p = p} e r) =
      let lt : p < s = tree.smaller s p e in
      let le : l ≤ p = Above-le tree r in
      let (path, found, good) = lateral_walk_lem fuel (omega arith) r in
      (s ∷ path, ground arith, IsPathTo-step e (omega arith) good)

  pub terminate_walk_lem :
      (fuel s : ℕ) → s < fuel → terminate_walk parent fuel s ≡ some (chain parent s)
  unfolding terminate_walk
  terminate_walk_lem zero s h = elim h [ ]
  terminate_walk_lem (suc fuel) s h = elim (Option-cases (parent s)) [
    | inl e ↦ rw (chain-root tree s e) (ground arith)
    | inr (p, e) ↦
        let lt : p < s = tree.smaller s p e in
        rw (chain-step tree s p e) (ground (arith, terminate_walk_lem fuel p (omega arith)))
  ]

  -- The ancestor test is exact.
  pub passes_sound :
      (fuel anc : ℕ) (cur : Option ℕ)
      → passes parent fuel anc cur ≡ true
      → (c : ℕ) × (cur ≡ some c) × Above parent anc c
  unfolding passes
  passes_sound zero anc cur h = cc
  passes_sound (suc fuel) anc none h = cc
  passes_sound (suc fuel) anc (some c) h = elim (Bool-cases (c == anc)) [
    | inl e ↦ (c, refl, rw (==→≡ c anc e) here)
    | inr e ↦ let (p, q, r) = passes_sound fuel anc (parent c) (ground arith) in (c, refl, up q r)
  ]

  pub passes_complete :
      {anc c : ℕ} (fuel : ℕ)
      → c < fuel
      → Above parent anc c
      → passes parent fuel anc (some c) ≡ true
  unfolding passes
  passes_complete {anc} {c} zero h r = elim h [ ]
  passes_complete {anc} {c} (suc fuel) h here = ground arith
  passes_complete {anc} {c} (suc fuel) h (up {p = p} e r) =
      let lt : p < c = tree.smaller c p e in
      let le : anc ≤ p = Above-le tree r in ground (arith, passes_complete fuel (omega arith) r)

  -- `climb k a` is the ancestor `k` levels up.
  pub climb_lem :
      (k a : ℕ)
      → a < n
      → k ≤ depth a
      → (l : ℕ) × (climb parent k a ≡ some l) × Above parent l a × (depth l + k ≡ depth a)
  unfolding climb
  climb_lem zero a h le = (a, refl, here, omega arith)
  climb_lem (suc k) a h le = elim (Option-cases (parent a)) [
    | inl e ↦
        let at_root : a ≡ 0 = tree.rooted a h e in
        absurd (omega (arith, tree.shallow, ap depth at_root))
    | inr (p, e) ↦
        let lt : p < a = tree.smaller a p e in
        let (l, found, above, level) =
          climb_lem k p (omega arith) (omega (arith, tree.deeper a p e)) in
        (l, rw (e, climb) found, up e above, omega (arith, tree.deeper a p e))
  ]

  -- A common ancestor that is no deeper than the landing place of a climb is above that place.
  pub climb-Above :
      {l a : ℕ} (c : ℕ) → Above parent l a → Above parent c a → depth c ≤ depth l → Above parent c l
  climb-Above c here s h = s
  climb-Above {l} {a} c (up {p = p} e r) s h = elim (Above-cases s) [
    | inl same ↦ absurd (omega (arith, tree.deeper a p e, depth-Above tree r, ap depth same))
    | inr (q, e', s') ↦ let same : p ≡ q = cc in climb-Above c r (rw same s') h
  ]

  -- Two states of one level that differ are no roots.
  both_have_parents :
      (a b : ℕ)
      → a < n
      → b < n
      → depth a ≡ depth b
      → a ≢ b
      → (p q : ℕ) × (parent a ≡ some p) × (parent b ≡ some q)
  both_have_parents a b ha hb same differ = elim (Option-cases (parent a)) [
    | inl ea ↦ elim (Option-cases (parent b)) [
      | inl eb ↦ absurd (differ (tree.rooted a ha ea ∙ sym (tree.rooted b hb eb)))
      | inr (q, eb) ↦
          absurd (omega (arith, tree.deeper b q eb, tree.shallow, ap depth (tree.rooted a ha ea)))
    ]
    | inr (p, ea) ↦ elim (Option-cases (parent b)) [
      | inl eb ↦
          absurd (omega (arith, tree.deeper a p ea, tree.shallow, ap depth (tree.rooted b hb eb)))
      | inr (q, eb) ↦ (p, q, ea, eb)
    ]
  ]

  -- What is above two different states of one level is above the parent of either.
  Above-parent :
      (a b c p : ℕ)
      → depth a ≡ depth b
      → a ≢ b
      → parent a ≡ some p
      → Above parent c a
      → Above parent c b
      → Above parent c p
  Above-parent a b c p same differ e r s = elim (Above-cases r) [
    | inl top ↦ elim (Above-strict tree s) [
      | inl again ↦ absurd (differ (sym top ∙ again))
      | inr lower ↦ absurd (omega (arith, ap depth top))
    ]
    | inr (q, e', r') ↦ let same : p ≡ q = cc in rw same r'
  ]

  -- From one level, the loop stops at the lowest common ancestor.
  pub meet_lem :
      (fuel a b : ℕ)
      → a < n
      → b < n
      → depth a ≡ depth b
      → depth a < fuel
      → (l : ℕ) × (meet parent fuel a b ≡ some l)
        × Above parent l a
        × Above parent l b
        × ((c : ℕ) → Above parent c a → Above parent c b → Above parent c l)
  unfolding meet
  meet_lem zero a b ha hb same h = elim h [ ]
  meet_lem (suc fuel) a b ha hb same h = elim (Bool-cases (a == b)) [
    | inl e ↦ (a, ground arith, here, rw (← ==→≡ a b e) here, λ c r s. r)
    | inr e ↦
        let (p, q, ea, eb) = both_have_parents a b ha hb same (==→≢ a b e) in
        let (l, found, la, lb, low) =
          meet_lem fuel p q (omega (arith, tree.smaller a p ea))
            (omega (arith, tree.smaller b q eb))
            (omega (arith, tree.deeper a p ea, tree.deeper b q eb))
            (omega (arith, tree.deeper a p ea)) in
        let strict : (c : ℕ) → Above parent c a → Above parent c b → Above parent c l = λ c r s.
          low c (Above-parent a b c p same (==→≢ a b e) ea r s)
            (Above-parent b a c q (sym same) (λ x. ==→≢ a b e (sym x)) eb s r) in
        (l, ground arith, up ea la, up eb lb, strict)
  ]
