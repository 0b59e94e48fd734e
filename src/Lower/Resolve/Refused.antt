-- ===== src/Lower/Resolve/Refused.antt =====
-- Why `resolve_transitions` of hsmc-macros/src/ir.rs refuses a chart.
use Prim.Native.String.{String}
use text.Mathlib.Text.{◌==◌ as str_eq}
use text.Mathlib.TextEquality.{eq_iff}
use hsmc.Ir.{Ir, StateIr, HandlerIr, HandlerKindIr}
use hsmc.Lower.Resolve.{
  NameMap, lookup_name, insert_states, find_root, name_map, resolve_kind, resolve_handlers,
  resolve_targets, resolve_default, resolve_defaults, resolve_transitions,
}
use hsmc.Lower.Resolve.Correct.{Bears}
use hsmc.Prelude.{
  ℕ, zero, suc, get_elem?, subst, ◌≡◌, ◌∙◌, ap, sym, refl, ◌⊎◌, inl, inr, Bool-cases, none, some,
  Option-cases, List, [], ◌∷◌, All, All-get_elem?, arith,
}
use hsmc.Refusal.{
  Refusal, Result, accepted, refused, unknown_target, unknown_default, ◌>>=◌, >>=-eq-accepted,
}

-- A transition of a state that has no id yet, and its target.
abbrev pub HasTransition : List StateIr → String → Type 0
HasTransition states n =
    (i j : ℕ) × (st : StateIr) × (h : HandlerIr) × (get_elem? states i ≡ some st)
    × (get_elem? st.handlers j ≡ some h)
    × (h.kind ≡ HandlerKindIr.transition n none)

-- A state with the default `n`.
abbrev pub HasDefault : List StateIr → String → Type 0
HasDefault states n =
    (i : ℕ) × (st : StateIr) × (get_elem? states i ≡ some st) × (st.default_target_ident ≡ some n)

-- A chain that is refused was refused in its first or its second part.
>>=-eq-refused :
    {A B : Type 0} (r : Result A) (f : A → Result B) {e : Refusal}
    → (r >>= f) ≡ refused e
    → (r ≡ refused e) ⊎ (a : A) × (r ≡ accepted a) × (f a ≡ refused e)
>>=-eq-refused (accepted a) f h = inr (a, refl, h)
>>=-eq-refused (refused x) f {e} h = let same : x ≡ e = cc in inl (ap refused same)

HasDefault-cons :
    (s : StateIr) (hs : List HandlerIr) (rest more : List StateIr) {n : String}
    → (HasDefault more n → HasDefault rest n)
    → HasDefault (record s { handlers = hs } ∷ more) n
    → HasDefault (s ∷ rest) n
HasDefault-cons s hs rest more later (zero, st, at, has) =
    let same : record s { handlers = hs } ≡ st = cc in
    (0, s, refl, ap (λ (q : StateIr). q.default_target_ident) same ∙ has)
HasDefault-cons s hs rest more later (suc i, st, at, has) =
    let (j, found, there, still) = later (i, st, at, has) in (suc j, found, there, still)

module _ (m : NameMap) where
  resolve_kind-refused :
      (k : HandlerKindIr) {e : Refusal}
      → resolve_kind m k ≡ refused e
      → (n : String) × (e ≡ unknown_target n)
        × (lookup_name n m ≡ none)
        × (k ≡ HandlerKindIr.transition n none)
  unfolding resolve_kind
  resolve_kind-refused (HandlerKindIr.action id name) h = cc
  resolve_kind-refused (HandlerKindIr.transition target (some slot)) h = cc
  resolve_kind-refused (HandlerKindIr.transition target none) h =
      elim (Option-cases (lookup_name target m)) [
        | inl gone ↦ (target, ground arith, gone, refl)
        | inr (id, found) ↦ ground arith
      ]

  resolve_handlers-refused :
      (hs : List HandlerIr) {e : Refusal}
      → resolve_handlers m hs ≡ refused e
      → (n : String) × (e ≡ unknown_target n)
        × (lookup_name n m ≡ none)
        × (j : ℕ) × (h : HandlerIr) × (get_elem? hs j ≡ some h)
        × (h.kind ≡ HandlerKindIr.transition n none)
  resolve_handlers-refused [] h = cc
  resolve_handlers-refused (hd ∷ rest) {e} h = elim (>>=-eq-refused (resolve_kind m hd.kind) _ h) [
    | inl first ↦
        let (n, named, gone, kind) = resolve_kind-refused hd.kind first in
        (n, named, gone, 0, hd, refl, kind)
    | inr (k, one, h1) ↦ elim (>>=-eq-refused (resolve_handlers m rest) _ h1) [
      | inl later ↦
          let (n, named, gone, j, g, at, kind) = resolve_handlers-refused rest later in
          (n, named, gone, suc j, g, at, kind)
      | inr (hs, all, h2) ↦ cc
    ]
  ]

  resolve_targets-refused :
      (states : List StateIr) {e : Refusal}
      → resolve_targets m states ≡ refused e
      → (n : String) × (e ≡ unknown_target n) × (lookup_name n m ≡ none) × HasTransition states n
  resolve_targets-refused [] h = cc
  resolve_targets-refused (s ∷ rest) {e} h =
      elim (>>=-eq-refused (resolve_handlers m s.handlers) _ h) [
        | inl first ↦
            let (n, named, gone, j, g, at, kind) = resolve_handlers-refused s.handlers first in
            (n, named, gone, (0, j, s, g, refl, at, kind))
        | inr (hs, one, h1) ↦ elim (>>=-eq-refused (resolve_targets m rest) _ h1) [
          | inl later ↦
              let (n, named, gone, (i, j, st, g, here, at, kind)) =
                resolve_targets-refused rest later in
              (n, named, gone, (suc i, j, st, g, here, at, kind))
          | inr (more, all, h2) ↦ cc
        ]
      ]

  resolve_default-refused :
      (s : StateIr) {e : Refusal}
      → resolve_default m s ≡ refused e
      → (n : String) × (e ≡ unknown_default n)
        × (lookup_name n m ≡ none)
        × (s.default_target_ident ≡ some n)
  unfolding resolve_default
  resolve_default-refused s h = elim (Option-cases s.default_target_ident) [
    | inl no_default ↦ ground arith
    | inr (name, has) ↦ elim (Option-cases (lookup_name name m)) [
      | inl gone ↦ (name, ground arith, gone, has)
      | inr (id, found) ↦ ground arith
    ]
  ]

  resolve_defaults-refused :
      (states : List StateIr) {e : Refusal}
      → resolve_defaults m states ≡ refused e
      → (n : String) × (e ≡ unknown_default n) × (lookup_name n m ≡ none) × HasDefault states n
  resolve_defaults-refused [] h = cc
  resolve_defaults-refused (s ∷ rest) {e} h = elim (>>=-eq-refused (resolve_default m s) _ h) [
    | inl first ↦
        let (n, named, gone, has) = resolve_default-refused s first in
        (n, named, gone, (0, s, refl, has))
    | inr (s', one, h1) ↦ elim (>>=-eq-refused (resolve_defaults m rest) _ h1) [
      | inl later ↦
          let (n, named, gone, (i, st, at, has)) = resolve_defaults-refused rest later in
          (n, named, gone, (suc i, st, at, has))
      | inr (more, all, h2) ↦ cc
    ]
  ]

  -- The first loop leaves the defaults.
  resolve_targets-HasDefault :
      (states : List StateIr) {targeted : List StateIr} {n : String}
      → resolve_targets m states ≡ accepted targeted
      → HasDefault targeted n
      → HasDefault states n
  resolve_targets-HasDefault [] {targeted} {n} h (i, st, at, has) =
      let same : [] ≡ targeted = cc in absurd (let gone = ap (λ l. get_elem? l i) same in cc)
  resolve_targets-HasDefault (s ∷ rest) {targeted} {n} h had =
      let (hs, one, h1) = >>=-eq-accepted (resolve_handlers m s.handlers) _ h in
      let (more, all, h2) = >>=-eq-accepted (resolve_targets m rest) _ h1 in
      let same : record s { handlers = hs } ∷ more ≡ targeted = cc in
      HasDefault-cons s hs rest more (λ d. resolve_targets-HasDefault rest all d)
        (subst (λ l. HasDefault l n) (sym same) had)

-- A name that the map of the states lacks is no state's, the placeholder of the root apart.
insert_states-none :
    (states : List StateIr) (m : NameMap) (n : String)
    → lookup_name n (insert_states states m) ≡ none
    → (lookup_name n m ≡ none) × All (λ (st : StateIr). st.name ≡ n → n ≡ "__Root") states
insert_states-none [] m n h = (h, tt)
insert_states-none (s ∷ rest) m n h = elim (Bool-cases (str_eq s.name "__Root")) [
  | inl root ↦
      let (before, later) = insert_states-none rest m n (rw root at h) in
      (before, ((λ same. sym same ∙ (eq_iff s.name "__Root").0 root), later))
  | inr other ↦
      let (before, later) = insert_states-none rest ((s.name, s.id) ∷ m) n (rw other at h) in
      elim (Bool-cases (str_eq s.name n)) [
        | inl hit ↦ ground arith
        | inr miss ↦
            (ground arith, ((λ same. absurd (let hit = (eq_iff s.name n).1 same in cc)), later))
      ]
]

-- A root is found if a state has no parent.
find_root-none :
    (states : List StateIr)
    → find_root states ≡ none
    → All (λ (st : StateIr). st.parent ≡ none → ⊥) states
find_root-none [] h = tt
find_root-none (s ∷ rest) h = elim (Option-cases s.parent) [
  | inl top ↦ ground arith
  | inr (p, above) ↦ ((λ top. cc), find_root-none rest (ground arith))
]

name_map-none :
    (ir : Ir) (n : String)
    → lookup_name n (name_map ir) ≡ none
    → (id : ℕ) → Bears ir n id
    → n ≡ "__Root"
unfolding name_map Bears
name_map-none ir n h id (st, at, called) = elim (Option-cases (find_root ir.states)) [
  | inl rootless ↦
      let (empty, others) = insert_states-none ir.states [] n (rw (rootless, name_map) at h) in
      elim called [
        | inl own ↦
            All-get_elem? (λ (s : StateIr). s.name ≡ n → n ≡ "__Root") ir.states id st others at own
        | inr (chart, top) ↦ absurd (
            All-get_elem? (λ (s : StateIr). s.parent ≡ none → ⊥) ir.states id st
              (find_root-none ir.states rootless) at top)
      ]
  | inr (root, found) ↦
      let h' : lookup_name n ((ir.name, root.id) ∷ insert_states ir.states []) ≡ none =
        rw (found, name_map) at h in
      elim (Bool-cases (str_eq ir.name n)) [
        | inl hit ↦ ground arith
        | inr miss ↦
            let (empty, others) = insert_states-none ir.states [] n (ground arith) in
            elim called [
              | inl own ↦
                  All-get_elem? (λ (s : StateIr). s.name ≡ n → n ≡ "__Root") ir.states id st others
                    at own
              | inr (chart, top) ↦ absurd (let hit = (eq_iff ir.name n).1 chart in cc)
            ]
      ]
]

-- `resolve_transitions` refuses a chart only for the target of one of its transitions, or for one of its
-- defaults, that no state goes by; the placeholder name of the root does not count.
pub resolve_transitions-refused :
    (ir : Ir) (e : Refusal)
    → resolve_transitions ir ≡ refused e
    → (n : String) × ((e ≡ unknown_target n) × HasTransition ir.states n
        ⊎ (e ≡ unknown_default n) × HasDefault ir.states n)
      × ((id : ℕ) → Bears ir n id → n ≡ "__Root")
unfolding resolve_transitions
resolve_transitions-refused ir e h =
    elim (>>=-eq-refused (resolve_targets (name_map ir) ir.states) _ h) [
      | inl first ↦
          let (n, named, gone, has) = resolve_targets-refused (name_map ir) ir.states first in
          (n, inl (named, has), name_map-none ir n gone)
      | inr (targeted, one, h1) ↦
          elim (>>=-eq-refused (resolve_defaults (name_map ir) targeted) _ h1) [
            | inl later ↦
                let (n, named, gone, has) = resolve_defaults-refused (name_map ir) targeted later in
                (
                  n,
                  inr (named, resolve_targets-HasDefault (name_map ir) ir.states one has),
                  name_map-none ir n gone,
                )
            | inr (states, two, h2) ↦ cc
          ]
    ]
