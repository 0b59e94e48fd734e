-- ===== src/Codegen/Walks/Tree.antt =====
-- State trees: what the lowering promises of the parent and depth tables, the ancestor relation and
-- the active path of a state.
use hsmc.Prelude.{
  ℕ, zero, suc, ◌+◌, ◌≤◌, ◌<◌, ◌≡◌, refl, ap, ◌⊎◌, inl, inr, Option, none, some, List, [], ◌∷◌, All,
  All-map, Option-cases, arith,
}

-- State 0 is the root, and every other state below `n` has a smaller parent one level up.
pub record IsTree (n : ℕ) (parent : ℕ → Option ℕ) (depth : ℕ → ℕ) : Type 0 where
  pub rooted : (s : ℕ) → s < n → parent s ≡ none → s ≡ 0
  pub top : parent 0 ≡ none
  pub smaller : (s p : ℕ) → parent s ≡ some p → p < s
  pub deeper : (s p : ℕ) → parent s ≡ some p → depth s ≡ depth p + 1
  pub shallow : depth 0 ≡ 0

-- `a` is `s` or one of its ancestors.
pub data Above (parent : ℕ → Option ℕ) (a : ℕ) : ℕ → Type 0 where
  here : Above parent a a
  up : {s p : ℕ} → parent s ≡ some p → Above parent a p → Above parent a s

module _ (parent : ℕ → Option ℕ) where
  unfoldable pub ancestry : ℕ → ℕ → List ℕ
  ancestry zero s = []
  ancestry (suc fuel) s = s ∷ elim (parent s) [ none ↦ [] | some p ↦ ancestry fuel p ]

  -- The active path while `s` is innermost: `s`, its parent, and so on to the root.
  unfoldable pub chain : ℕ → List ℕ
  unfolding ancestry
  chain s = ancestry (suc s) s

module _ {n : ℕ} {parent : ℕ → Option ℕ} {depth : ℕ → ℕ} (tree : IsTree n parent depth) where
  ancestry-eq-chain :
      (fuel k s : ℕ) → s < fuel → s < k → ancestry parent fuel s ≡ ancestry parent k s
  unfolding ancestry
  ancestry-eq-chain zero k s h h' = elim h [ ]
  ancestry-eq-chain (suc fuel) zero s h h' = elim h' [ ]
  ancestry-eq-chain (suc fuel) (suc k) s h h' = elim (Option-cases (parent s)) [
    | inl e ↦ rw e
    | inr (p, e) ↦ rw e (
        ap (λ l. s ∷ l)
          (ancestry-eq-chain fuel k p (omega (arith, tree.smaller s p e))
            (omega (arith, tree.smaller s p e))))
  ]

  pub chain-step : (s p : ℕ) → parent s ≡ some p → chain parent s ≡ s ∷ chain parent p
  unfolding chain
  chain-step s p e =
      rw e (ap (λ l. s ∷ l) (ancestry-eq-chain s (suc p) p (tree.smaller s p e) (omega arith)))

  pub chain-root : (s : ℕ) → parent s ≡ none → chain parent s ≡ s ∷ []
  unfolding chain
  chain-root s e = rw e

  pub Above-le : {a s : ℕ} → Above parent a s → a ≤ s
  Above-le here = omega arith
  Above-le (up {s} {p} e r) = omega (arith, tree.smaller s p e, Above-le r)

  pub depth-Above : {a s : ℕ} → Above parent a s → depth a ≤ depth s
  depth-Above here = omega arith
  depth-Above (up {s} {p} e r) = omega (arith, tree.deeper s p e, depth-Above r)

  pub Above-strict : {a s : ℕ} → Above parent a s → a ≡ s ⊎ (depth a < depth s)
  Above-strict here = inl refl
  Above-strict (up {s} {p} e r) = inr (omega (arith, tree.deeper s p e, depth-Above r))

  -- Every state of an active path is an ancestor of its innermost state.
  ancestry-Above : (fuel s : ℕ) → All (λ a. Above parent a s) (ancestry parent fuel s)
  unfolding ancestry
  ancestry-Above zero s = tt
  ancestry-Above (suc fuel) s = elim (Option-cases (parent s)) [
    | inl e ↦ rw e (here, tt)
    | inr (p, e) ↦ rw e (here, All-map (λ a r. up e r) _ (ancestry-Above fuel p))
  ]

  pub chain-Above : (s : ℕ) → All (λ a. Above parent a s) (chain parent s)
  unfolding chain
  chain-Above s = ancestry-Above (suc s) s

-- An ancestor is the state itself or an ancestor of its parent.
pub Above-cases :
    {parent : ℕ → Option ℕ} {a s : ℕ}
    → Above parent a s
    → (a ≡ s) ⊎ ((p : ℕ) × (parent s ≡ some p) × Above parent a p)
Above-cases here = inl refl
Above-cases (up {p = p} e r) = inr (p, e, r)

pub Above-trans :
    {parent : ℕ → Option ℕ} {l a s : ℕ} → Above parent a s → Above parent l a → Above parent l s
Above-trans here r = r
Above-trans (up e q) r = up e (Above-trans q r)
