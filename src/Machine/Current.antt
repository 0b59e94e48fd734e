-- ===== src/Machine/Current.antt =====
-- `current_state` of the machine that hsmc-macros/src/codegen.rs generates, with `__state_id_to_public`.
-- A variant of the public enum is its name, and `none` is a panic.
use Prim.Native.String.{String}
use hsmc.Ir.{StateIr}
use hsmc.Machine.{Machine}
use hsmc.Prelude.{
  ℕ, zero, suc, ◌+◌, ◌<◌, ◌≡◌, ◌∙◌, ◌==◌, ≡→==, ≢→==, ap, sym, refl, ◌⊎◌, inl, inr, Option, none,
  some, Option-cases, List, [], ◌∷◌, get_elem?, if◌then◌else◌, arith,
}

-- The arms of the states that have a parent.
abbrev pub state_id_to_public : List StateIr → ℕ → Option String
state_id_to_public [] id = none
state_id_to_public (s ∷ rest) id =
    let later = state_id_to_public rest id in
    elim s.parent [ none ↦ later | some p ↦ if s.id == id then some s.name else later ]

unfoldable pub current_state : {Ev Ctx : Type 0} → List StateIr → Machine Ev Ctx → Option String
current_state states m = elim m.current [ none ↦ none | some id ↦ state_id_to_public states id ]

-- The ids count from `k`.
abbrev Counted : ℕ → List StateIr → Type 0
Counted k xs = (i : ℕ) (st : StateIr) → get_elem? xs i ≡ some st → st.id ≡ k + i

Counted-tail : (k : ℕ) (x : StateIr) (xs : List StateIr) → Counted k (x ∷ xs) → Counted (k + 1) xs
Counted-tail k x xs h = λ i st at. h (suc i) st at ∙ omega arith

absent : (k id : ℕ) (xs : List StateIr) → Counted k xs → id < k → state_id_to_public xs id ≡ none
absent k id [] h lt = refl
absent k id (x ∷ xs) h lt =
    let rest = absent (k + 1) id xs (Counted-tail k x xs h) (omega arith) in
    let first : x.id ≡ k + 0 = h 0 x refl in
    let miss = ≢→== x.id id (λ e. omega (arith, e, first)) in
    elim (Option-cases x.parent) [ inl top ↦ rw top rest | inr (p, up) ↦ rw (up, miss) rest ]

public-at :
    (k : ℕ) (xs : List StateIr) (i : ℕ) (st : StateIr)
    → Counted k xs
    → get_elem? xs i ≡ some st
    → ((st.parent ≡ none) × (state_id_to_public xs (k + i) ≡ none))
      ⊎ ((p : ℕ) × (st.parent ≡ some p) × (state_id_to_public xs (k + i) ≡ some st.name))
public-at k [] i st h at = cc
public-at k (x ∷ xs) zero st h at =
    let same : st ≡ x = cc in
    let hit = ≡→== x.id (k + 0) (h 0 x refl) in
    let rest = absent (k + 1) (k + 0) xs (Counted-tail k x xs h) (omega arith) in
    elim (Option-cases x.parent) [
      | inl top ↦ inl (ap (λ (s : StateIr). s.parent) same ∙ top, rw top rest)
      | inr (p, up) ↦ inr (
        p,
        ap (λ (s : StateIr). s.parent) same ∙ up,
        rw (up, hit) (ap (λ (s : StateIr). some s.name) (sym same)),
      )
    ]
public-at k (x ∷ xs) (suc i) st h at =
    let shift : k + suc i ≡ k + 1 + i = omega arith in
    let first : x.id ≡ k + 0 = h 0 x refl in
    let miss = ≢→== x.id (k + suc i) (λ e. omega (arith, e, first)) in
    let moved = ap (state_id_to_public xs) shift in
    let skip : state_id_to_public (x ∷ xs) (k + suc i) ≡ state_id_to_public xs (k + 1 + i) =
      elim (Option-cases x.parent) [ inl top ↦ rw top moved | inr (p, up) ↦ rw (up, miss) moved ] in
    elim (public-at (k + 1) xs i st (Counted-tail k x xs h) at) [
      | inl (top, gone) ↦ inl (top, skip ∙ gone)
      | inr (p, up, named) ↦ inr (p, up, skip ∙ named)
    ]

-- On states whose ids are their indexes, `current_state` of a machine in a state answers the name of
-- that state if it has a parent. In the root it panics, as it does without a current state.
pub current_state_lem :
    {Ev Ctx : Type 0} (states : List StateIr) (m : Machine Ev Ctx)
    → ((i : ℕ) (st : StateIr) → get_elem? states i ≡ some st → st.id ≡ i)
    → (m.current ≡ none → current_state states m ≡ none)
      × ((c : ℕ) (st : StateIr)
          → m.current ≡ some c
          → get_elem? states c ≡ some st
          → ((st.parent ≡ none) × (current_state states m ≡ none))
            ⊎ ((p : ℕ) × (st.parent ≡ some p) × (current_state states m ≡ some st.name)))
unfolding current_state
current_state_lem states m indexed = (
  λ e. rw e,
  λ c st e at.
      let zero_plus : 0 + c ≡ c = omega arith in
      rw e (rw (← zero_plus) (public-at 0 states c st (λ i s h. indexed i s h ∙ omega arith) at)),
)
