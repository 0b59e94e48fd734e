-- ===== src/Codegen/Text/Marks.antt =====
-- Which children STATE_CHART of hsmc-macros/src/codegen.rs marks as defaults, when the chart is accepted.
use Prim.Native.String.{String}
use text.Mathlib.Text.{◌==◌ as str_eq}
use text.Mathlib.TextEquality.{eq_iff}
use hsmc.Codegen.Text.{is_default}
use hsmc.Codegen.Text.Drawing.{is_named}
use hsmc.Input.{StatechartInput}
use hsmc.Ir.{Ir, StateIr, parent_of}
use hsmc.Lower.Bodies.{collect_state_names}
use hsmc.Lower.Bodies.Correct.{state_name}
use hsmc.Lower.Bodies.Interned.Entries.{map-at}
use hsmc.Lower.Resolve.Correct.{Bears, DefaultSettles, Settles, Both}
use hsmc.Lower.Resolve.Means.{Both-at}
use hsmc.Prelude.{
  ℕ, zero, suc, ≡→==, ≢→==, ◌≡◌, ◌≢◌, ◌∙◌, ap, sym, refl, inl, inr, Bool-cases, Option, none, some,
  List, [], ◌∷◌, map, get_elem?, All, All-get_elem?,
}
use hsmc.Validate.Correct.{AreDistinct}

-- States with one name are one state.
AreDistinct-at :
    (xs : List StateIr) (i j : ℕ) {a b : StateIr}
    → AreDistinct xs
    → get_elem? xs i ≡ some a
    → get_elem? xs j ≡ some b
    → a.name ≡ b.name
    → a.name ≢ "__Root"
    → i ≡ j
AreDistinct-at [] i j d at_i at_j same other = cc
AreDistinct-at (x ∷ xs) zero zero d at_i at_j same other = refl
AreDistinct-at (x ∷ xs) zero (suc j) {a} {b} (d, ds) at_i at_j same other =
    let here : x ≡ a = cc in
    let named = ap (λ (q : StateIr). q.name) here in
    absurd (
      All-get_elem? (λ (t : StateIr). t.name ≢ x.name) xs j b (d (λ e. other (sym named ∙ e))) at_j
        (sym same ∙ sym named))
AreDistinct-at (x ∷ xs) (suc i) zero {a} {b} (d, ds) at_i at_j same other =
    let here : x ≡ b = cc in
    let named = ap (λ (q : StateIr). q.name) here in
    absurd (
      All-get_elem? (λ (t : StateIr). t.name ≢ x.name) xs i a
        (d (λ e. other (same ∙ sym named ∙ e))) at_i (same ∙ sym named))
AreDistinct-at (x ∷ xs) (suc i) (suc j) (d, ds) at_i at_j same other =
    ap suc (AreDistinct-at xs i j ds at_i at_j same other)

-- Names tell states apart, but the name of the placeholder.
abbrev pub IsNamed : List StateIr → Type 0
IsNamed xs =
    (i j : ℕ) (a b : StateIr)
    → get_elem? xs i ≡ some a
    → get_elem? xs j ≡ some b
    → a.name ≡ b.name
    → a.name ≢ "__Root"
    → i ≡ j

pub settled-IsNamed :
    (N : String → ℕ → Type 0) (xs ys : List StateIr)
    → Both (Settles N) xs ys
    → AreDistinct ys
    → IsNamed xs
settled-IsNamed N xs ys both distinct i j a b at_i at_j same other =
    let (a', at_i', e) = Both-at (Settles N) xs ys i both at_i in
    let (b', at_j', f) = Both-at (Settles N) xs ys j both at_j in
    let named_a = ap (λ (q : StateIr). q.name) e.rest in
    let named_b = ap (λ (q : StateIr). q.name) f.rest in
    AreDistinct-at ys i j distinct at_i' at_j' (named_a ∙ same ∙ sym named_b)
      (λ root. other (sym named_a ∙ root))

-- The mark of the child `c` agrees with its name.
pub marked_by_name :
    (ir : Ir) (c s : ℕ) (ct : StateIr) (o : Option String) (d d' : Option ℕ)
    → IsNamed ir.states
    → get_elem? ir.states c ≡ some ct
    → ct.parent ≡ some s
    → ct.name ≢ "__Root"
    → ct.name ≢ ir.name
    → d ≡ none
    → DefaultSettles (Bears ir) o d d'
    → is_default c d' ≡ is_named ct.name o
unfolding Bears
marked_by_name ir c s ct none d d' distinct at under other unlike unset settled =
    ap (is_default c) (settled ∙ unset)
marked_by_name ir c s ct (some n) d d' distinct at under other unlike unset
      (id, set_to, (w, there, how)) =
    ap (is_default c) set_to ∙ (elim how [
      | inl called ↦ elim (Bool-cases (str_eq ct.name n)) [
        | inl hit ↦
            let same : ct.name ≡ w.name = (eq_iff ct.name n).0 hit ∙ sym called in
            ≡→== c id (distinct c id ct w at there same other) ∙ sym hit
        | inr miss ↦
            ≢→== c id (λ e.
              let one : ct ≡ w = let moved = ap (get_elem? ir.states) e in cc in
              let hit = (eq_iff ct.name n).1 (ap (λ (q : StateIr). q.name) one ∙ called) in cc)
            ∙ sym miss
      ]
      | inr (chart, top) ↦ elim (Bool-cases (str_eq ct.name n)) [
        | inl hit ↦ absurd (unlike ((eq_iff ct.name n).0 hit ∙ sym chart))
        | inr miss ↦
            ≢→== c id (λ e.
              let one : ct ≡ w = let moved = ap (get_elem? ir.states) e in cc in
              let parents = ap (λ (q : StateIr). q.parent) one in cc)
            ∙ sym miss
      ]
    ])

-- A declared name is neither that of the chart nor that of the placeholder.
abbrev pub AreOwn : StatechartInput → Type 0
AreOwn input = All (λ n. (n ≢ input.name) × (n ≢ "__Root")) (collect_state_names input.root)

pub named-AreOwn :
    (input : StatechartInput) (xs : List StateIr) (c s : ℕ) (ct : StateIr)
    → AreOwn input
    → map state_name xs ≡ "__Root" ∷ collect_state_names input.root
    → parent_of xs 0 ≡ none
    → get_elem? xs c ≡ some ct
    → ct.parent ≡ some s
    → (ct.name ≢ input.name) × (ct.name ≢ "__Root")
unfolding parent_of
named-AreOwn input (x ∷ xs) zero s ct own named top at under =
    let same : x ≡ ct = cc in
    let parents : x.parent ≡ ct.parent = ap (λ (q : StateIr). q.parent) same in cc
named-AreOwn input [] c s ct own named top at under = cc
named-AreOwn input (x ∷ xs) (suc c) s ct own named top at under =
    let tail : map state_name xs ≡ collect_state_names input.root = cc in
    All-get_elem? (λ n. (n ≢ input.name) × (n ≢ "__Root")) (collect_state_names input.root) c
      ct.name own (ap (λ l. get_elem? l c) (sym tail) ∙ map-at state_name xs c at)
