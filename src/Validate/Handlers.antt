-- ===== src/Validate/Handlers.antt =====
-- What hsmc-macros/src/validate.rs promises of the handlers of a state that it accepts.
use Prim.Native.String.{String}
use text.Mathlib.TextEquality.{eq_iff}
use hsmc.Ir.{HandlerIr, HandlerKindIr, DurationTrigger}
use hsmc.Lower.Resolve.{NameMap, lookup_name}
use hsmc.Prelude.{
  ℕ, ◌≤◌, ◌≡◌, ◌∙◌, refl, subst, ≡→==, ==→≡, ltb, ap, sym, inl, inr, true, false, Bool-cases, some,
  Option-cases, List, [], ◌∷◌, All, arith,
}
use hsmc.Refusal.{accepted, >>=-eq-accepted}
use hsmc.Validate.{
  Key, ev, dur, key_of, same_key, Marks, mark_of, display_of, after_transition, check_kind,
  check_handlers,
}

abbrev pub IsTransition : HandlerKindIr → Type 0
IsTransition (HandlerKindIr.transition target slot) = Unit
IsTransition (HandlerKindIr.action id name) = ⊥

ltb-false : (a b : ℕ) → ltb a b ≡ false → b ≤ a
ltb-false a b h = ground (arith, h)

-- After a transition, its trigger has no second one, and no action that is declared later.
abbrev pub IsOrdered : List HandlerIr → Type 0
IsOrdered [] = Unit
IsOrdered (h ∷ rest) =
    (IsTransition h.kind
      → All
          (λ (h' : HandlerIr).
            key_of h'.trigger ≡ key_of h.trigger
            → (IsTransition h'.kind → ⊥) × (h'.decl_index ≤ h.decl_index))
          rest)
    × IsOrdered rest

-- The target of a transition is the name of a state.
abbrev pub IsNamedKind : NameMap → HandlerKindIr → Type 0
IsNamedKind names (HandlerKindIr.transition target slot) =
    (id : ℕ) × (lookup_name target names ≡ some id)
IsNamedKind names (HandlerKindIr.action id name) = Unit

same_key-eq : (a b : Key) → same_key a b ≡ true → a ≡ b
same_key-eq (ev a) (ev b) h = ap ev ((eq_iff a b).0 h)
same_key-eq (dur a) (dur b) h = ap dur (==→≡ a b h)
same_key-eq (ev a) (dur b) h = cc
same_key-eq (dur a) (ev b) h = cc

same_key_refl : (a : Key) → same_key a a ≡ true
same_key_refl (ev a) = (eq_iff a a).1 refl
same_key_refl (dur a) = ≡→== a a refl

-- What a handler that is accepted does to the marks of the transitions.
abbrev Marked : NameMap → Marks → Key → ℕ → HandlerKindIr → Marks → Type 0
Marked names txns k i kind txns' =
    IsNamedKind names kind
    × ((k' : Key) (i' : ℕ)
        → mark_of k' txns ≡ some i'
        → (mark_of k' txns' ≡ some i') × (k ≡ k' → (IsTransition kind → ⊥) × (i ≤ i')))
    × (IsTransition kind → mark_of k txns' ≡ some i)

after_transition-le :
    (display : String) (i j : ℕ) {u : Unit {0}}
    → after_transition display i (some j) ≡ accepted u
    → i ≤ j
after_transition-le display i j h = elim (Bool-cases (ltb j i)) [
  | inl late ↦ ground arith
  | inr fine ↦ ltb-false j i fine
]

check_kind-Marked :
    (names : NameMap) (state display : String) (k : Key) (i : ℕ) (kind : HandlerKindIr)
    (txns actions : Marks) {r : Marks × Marks}
    → check_kind names state display k i kind txns actions ≡ accepted r
    → Marked names txns k i kind r.0
check_kind-Marked names state display k i (HandlerKindIr.transition target slot) txns actions {r}
      e =
    elim (Option-cases (mark_of k txns)) [
      | inr (prev, twice) ↦ ground arith
      | inl first ↦ elim (Option-cases (lookup_name target names)) [
        | inl unknown ↦ ground arith
        | inr (id, found) ↦
            let same : ((k, i) ∷ txns, actions) ≡ r = ground arith in
            subst
              (λ (q : Marks × Marks).
                Marked names txns k i (HandlerKindIr.transition target slot) q.0)
              same
              (
                (id, found),
                (λ k' i' m. elim (Bool-cases (same_key k k')) [
                  | inl hit ↦ absurd (let equal = same_key-eq k k' hit in cc)
                  | inr miss ↦ (rw miss m, λ equal. absurd (let hit = same_key_refl k in cc))
                ]),
                λ t. rw (same_key_refl k),
              )
      ]
    ]
check_kind-Marked names state display k i (HandlerKindIr.action id name) txns actions {r} e =
    let (once, passed, e1) = >>=-eq-accepted (after_transition display i (mark_of k txns)) _ e in
    let same : (txns, (k, i) ∷ actions) ≡ r = cc in
    subst (λ (q : Marks × Marks). Marked names txns k i (HandlerKindIr.action id name) q.0) same
      (
        tt,
        (λ k' i' m. (
          m,
          λ equal. (
            (λ f. f),
            after_transition-le display i i' (
                ap (after_transition display i) (sym m ∙ ap (λ x. mark_of x txns) (sym equal))
                ∙ passed),
          ),
        )),
        λ f. absurd f,
      )

-- After a transition that is marked.
check_handlers-marked :
    (names : NameMap) (durations : List DurationTrigger) (state : String) (hs : List HandlerIr)
    (txns actions : Marks) (k : Key) (i : ℕ) {u : Unit {0}}
    → mark_of k txns ≡ some i
    → check_handlers names durations state hs txns actions ≡ accepted u
    → All
        (λ (h' : HandlerIr).
          key_of h'.trigger ≡ k → (IsTransition h'.kind → ⊥) × (h'.decl_index ≤ i))
        hs
unfolding check_handlers
check_handlers-marked names durations state [] txns actions k i m e = tt
check_handlers-marked names durations state (h ∷ rest) txns actions k i m e =
    let (display, shown, e1) = >>=-eq-accepted (display_of durations h.trigger) _ e in
    let (r, one, e2) =
      >>=-eq-accepted
        (check_kind names state display (key_of h.trigger) h.decl_index h.kind txns actions) _ e1 in
    let (named, kept, marks) =
      check_kind-Marked names state display (key_of h.trigger) h.decl_index h.kind txns actions
        one in
    let (m', follows) = kept k i m in
    (follows, check_handlers-marked names durations state rest r.0 r.1 k i m' e2)

-- The handlers of a state that is accepted are ordered, and their targets are named.
pub check_handlers-IsOrdered :
    (names : NameMap) (durations : List DurationTrigger) (state : String) (hs : List HandlerIr)
    (txns actions : Marks) {u : Unit {0}}
    → check_handlers names durations state hs txns actions ≡ accepted u
    → IsOrdered hs × All (λ (h : HandlerIr). IsNamedKind names h.kind) hs
unfolding check_handlers
check_handlers-IsOrdered names durations state [] txns actions e = (tt, tt)
check_handlers-IsOrdered names durations state (h ∷ rest) txns actions e =
    let (display, shown, e1) = >>=-eq-accepted (display_of durations h.trigger) _ e in
    let (r, one, e2) =
      >>=-eq-accepted
        (check_kind names state display (key_of h.trigger) h.decl_index h.kind txns actions) _ e1 in
    let (named, kept, marks) =
      check_kind-Marked names state display (key_of h.trigger) h.decl_index h.kind txns actions
        one in
    let (ordered, all_named) = check_handlers-IsOrdered names durations state rest r.0 r.1 e2 in
    (
      (
        λ t.
            check_handlers-marked names durations state rest r.0 r.1 (key_of h.trigger) h.decl_index
              (marks t) e2,
        ordered,
      ),
      (named, all_named),
    )
