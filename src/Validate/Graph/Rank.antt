-- ===== src/Validate/Graph/Rank.antt =====
-- A rank of the states by the default edges still to come, for the charts that
-- hsmc-macros/src/validate.rs accepts.
use hsmc.Ir.{StateIr}
use hsmc.Prelude.{
  ℕ, zero, suc, ◌+◌, ◌<◌, ◌≤◌, ◌≡◌, refl, subst, inl, inr, none, some, Option-cases, some_case,
  none_case, List, length, arith,
}
use hsmc.Validate.Graph.Chase.{next_of, Ends, stop, go}

-- The default edges from a state, as far as the fuel goes.
unfoldable pub edges : List StateIr → ℕ → ℕ → ℕ
edges states zero s = 0
edges states (suc fuel) s = elim (next_of states s) [ none ↦ 0 | some c ↦ edges states fuel c + 1 ]

edges-le : (states : List StateIr) (fuel s : ℕ) → edges states fuel s ≤ fuel
unfolding edges
edges-le states zero s = omega arith
edges-le states (suc fuel) s = elim (Option-cases (next_of states s)) [
  | inl e ↦ none_case (next_of states s) (λ k. k ≤ suc fuel) _ _ e (omega arith)
  | inr (c, e) ↦
      some_case (next_of states s) (λ k. k ≤ suc fuel) _ _ c e
        (omega (arith, edges-le states fuel c))
]

edges-Ends :
    (states : List StateIr) (fuel s k : ℕ) → Ends states s k → k ≤ fuel → edges states fuel s ≡ k
unfolding edges
edges-Ends states zero s k (stop e) h = omega arith
edges-Ends states zero s k (go e ends) h = absurd (omega arith)
edges-Ends states (suc fuel) s k (stop e) h =
    none_case (next_of states s) (λ x. x ≡ 0) _ _ e (omega arith)
edges-Ends states (suc fuel) s k (go {c = c} {k = k'} e ends) h =
    some_case (next_of states s) (λ x. x ≡ suc k') _ _ c e
      (omega (arith, edges-Ends states fuel c k' ends (omega arith)))

-- The rest of a way that ends.
Ends-next :
    (states : List StateIr) (s c k : ℕ)
    → Ends states s k
    → next_of states s ≡ some c
    → (k' : ℕ) × (k ≡ suc k') × Ends states c k'
Ends-next states s c k (stop e) h = cc
Ends-next states s c k (go {c = c'} {k = k'} e ends) h =
    let same : c' ≡ c = cc in (k', refl, subst (λ x. Ends states x k') same ends)

abbrev pub rank : List StateIr → ℕ → ℕ
rank states s = edges states (length states) s

pub rank-le : (states : List StateIr) (s : ℕ) → rank states s ≤ length states
rank-le states s = edges-le states (length states) s

-- Where all defaults end, an edge goes down in rank.
pub rank-down :
    (states : List StateIr)
    → ((s : ℕ) → s < length states → (k : ℕ) × Ends states s k × (k < length states))
    → (s c : ℕ) → s < length states
    → next_of states s ≡ some c
    → rank states c < rank states s
rank-down states all s c lt e =
    let (k, ends, below) = all s lt in
    let (k', one, rest) = Ends-next states s c k ends e in
    omega (
      arith,
      one,
      edges-Ends states (length states) s k ends (omega arith),
      edges-Ends states (length states) c k' rest (omega (arith, one)),
    )
