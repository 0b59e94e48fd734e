-- ===== src/Lower/Resolve/Correct.antt =====
-- What `resolve_transitions` of hsmc-macros/src/ir.rs promises of the states it accepts.
use Prim.Native.String.{String}
use text.Mathlib.Text.{◌==◌ as str_eq}
use text.Mathlib.TextEquality.{eq_iff}
use hsmc.Ir.{Ir, StateIr, HandlerIr, HandlerKindIr}
use hsmc.Lower.Resolve.{
  NameMap, lookup_name, insert_states, find_root, name_map, resolve_kind, resolve_handlers,
  resolve_targets, resolve_default, resolve_defaults, resolve_transitions,
}
use hsmc.Prelude.{
  ℕ, suc, ◌≡◌, ◌∙◌, ap, sym, subst, refl, ◌⊎◌, inl, inr, Bool-cases, Option, none, some,
  Option-cases, List, [], ◌∷◌, get_elem?, All, arith,
}
use hsmc.Refusal.{accepted, >>=-eq-accepted}

-- The state `id` goes by the name `n`: it is its own, or the chart's and the state has no parent.
unfoldable pub Bears : Ir → String → ℕ → Type 0
Bears ir n id =
    (st : StateIr) × (get_elem? ir.states id ≡ some st)
    × ((st.name ≡ n) ⊎ (ir.name ≡ n) × (st.parent ≡ none))

module _ (N : String → ℕ → Type 0) where
  -- The kind of a handler before and after.
  abbrev pub KindSettles : HandlerKindIr → HandlerKindIr → Type 0
  KindSettles (HandlerKindIr.action id name) k = k ≡ HandlerKindIr.action id name
  KindSettles (HandlerKindIr.transition target (some slot)) k =
      k ≡ HandlerKindIr.transition target (some slot)
  KindSettles (HandlerKindIr.transition target none) k =
      (id : ℕ) × (k ≡ HandlerKindIr.transition target (some id)) × N target id

  abbrev pub HandlersSettle : List HandlerIr → List HandlerIr → Type 0
  HandlersSettle [] [] = Unit
  HandlersSettle [] (h' ∷ hs') = ⊥
  HandlersSettle (h ∷ hs) [] = ⊥
  HandlersSettle (h ∷ hs) (h' ∷ hs') =
      (h'.trigger ≡ h.trigger)
      × (h'.decl_index ≡ h.decl_index)
      × KindSettles h.kind h'.kind
      × HandlersSettle hs hs'

  abbrev pub DefaultSettles : Option String → Option ℕ → Option ℕ → Type 0
  DefaultSettles none d d' = d' ≡ d
  DefaultSettles (some name) d d' = (id : ℕ) × (d' ≡ some id) × N name id

  -- A state before and after: its targets are found, and nothing else is changed.
  pub record Settles (s s' : StateIr) : Type 0 where
    pub rest : record s' { handlers = s.handlers; default_child = s.default_child } ≡ s
    pub handlers : HandlersSettle s.handlers s'.handlers
    pub default_found : DefaultSettles s.default_target_ident s.default_child s'.default_child

-- Two lists of one length, elementwise.
abbrev pub Both : (StateIr → StateIr → Type 0) → List StateIr → List StateIr → Type 0
Both R [] [] = Unit
Both R [] (y ∷ ys) = ⊥
Both R (x ∷ xs) [] = ⊥
Both R (x ∷ xs) (y ∷ ys) = R x y × Both R xs ys

module _ (m : NameMap) (N : String → ℕ → Type 0)
    (found : (n : String) (id : ℕ) → lookup_name n m ≡ some id → N n id) where
  resolve_kind-Settles :
      (k : HandlerKindIr) {k' : HandlerKindIr} → resolve_kind m k ≡ accepted k' → KindSettles N k k'
  unfolding resolve_kind
  resolve_kind-Settles (HandlerKindIr.action id name) h = cc
  resolve_kind-Settles (HandlerKindIr.transition target (some slot)) h = cc
  resolve_kind-Settles (HandlerKindIr.transition target none) h =
      elim (Option-cases (lookup_name target m)) [
        | inl e ↦ ground arith
        | inr (id, e) ↦ (id, ground arith, found target id e)
      ]

  resolve_handlers-Settles :
      (hs : List HandlerIr) {hs' : List HandlerIr}
      → resolve_handlers m hs ≡ accepted hs'
      → HandlersSettle N hs hs'
  resolve_handlers-Settles [] {hs'} h =
      let same : [] ≡ hs' = cc in subst (HandlersSettle N []) same tt
  resolve_handlers-Settles (hd ∷ rest) {hs'} h =
      let (kind, one, h1) = >>=-eq-accepted (resolve_kind m hd.kind) _ h in
      let (more, all, h2) = >>=-eq-accepted (resolve_handlers m rest) _ h1 in
      let same : record hd { kind = kind } ∷ more ≡ hs' = cc in
      subst (HandlersSettle N (hd ∷ rest)) same
        (refl, refl, resolve_kind-Settles hd.kind one, resolve_handlers-Settles rest all)

  resolve_default-Settles :
      (s : StateIr) (hs : List HandlerIr) {s' : StateIr}
      → HandlersSettle N s.handlers hs
      → resolve_default m (record s { handlers = hs }) ≡ accepted s'
      → Settles N s s'
  unfolding resolve_default
  resolve_default-Settles s hs {s'} done h = elim (Option-cases s.default_target_ident) [
    | inl e ↦
        let same : record s { handlers = hs } ≡ s' = ground arith in
        subst (Settles N s) same (record {
          rest = refl;
          handlers = done;
          default_found =
              subst (λ o. DefaultSettles N o s.default_child s.default_child) (sym e) refl;
        })
    | inr (name, e) ↦ elim (Option-cases (lookup_name name m)) [
      | inl e' ↦ ground arith
      | inr (id, e') ↦
          let same : record s { handlers = hs; default_child = some id } ≡ s' = ground arith in
          subst (Settles N s) same (record {
            rest = refl;
            handlers = done;
            default_found =
                subst (λ o. DefaultSettles N o s.default_child (some id)) (sym e)
                  (id, refl, found name id e');
          })
    ]
  ]

  resolve-Both :
      (states : List StateIr) {targeted states' : List StateIr}
      → resolve_targets m states ≡ accepted targeted
      → resolve_defaults m targeted ≡ accepted states'
      → Both (Settles N) states states'
  resolve-Both [] {targeted} {states'} h k =
      let none_left : [] ≡ targeted = cc in
      let same : [] ≡ states' = ground arith in subst (Both (Settles N) []) same tt
  resolve-Both (s ∷ rest) {targeted} {states'} h k =
      let (hs, one, h1) = >>=-eq-accepted (resolve_handlers m s.handlers) _ h in
      let (more, all, h2) = >>=-eq-accepted (resolve_targets m rest) _ h1 in
      let same : record s { handlers = hs } ∷ more ≡ targeted = cc in
      let k' : resolve_defaults m (record s { handlers = hs } ∷ more) ≡ accepted states' =
        subst (λ l. resolve_defaults m l ≡ accepted states') (sym same) k in
      let (s', two, k1) = >>=-eq-accepted (resolve_default m (record s { handlers = hs })) _ k' in
      let (others, every, k2) = >>=-eq-accepted (resolve_defaults m more) _ k1 in
      let same' : s' ∷ others ≡ states' = cc in
      subst (Both (Settles N) (s ∷ rest)) same' (
        resolve_default-Settles s hs (resolve_handlers-Settles s.handlers one) two,
        resolve-Both rest all every,
      )

-- The first state without a parent.
find_root-found :
    (all states : List StateIr) {root : StateIr}
    → All (λ (st : StateIr). get_elem? all st.id ≡ some st) states
    → find_root states ≡ some root
    → (get_elem? all root.id ≡ some root) × (root.parent ≡ none)
find_root-found all [] h e = cc
find_root-found all (s ∷ rest) {root} h e = elim (Option-cases s.parent) [
  | inl none_above ↦
      let same : s ≡ root = ground arith in
      subst (λ (r : StateIr). (get_elem? all r.id ≡ some r) × (r.parent ≡ none)) same
        (h.0, none_above)
  | inr (p, above) ↦ find_root-found all rest h.1 (ground arith)
]

-- What the map of the states answers was inserted.
insert_states-found :
    (all states : List StateIr) (m : NameMap) (n : String) (id : ℕ)
    → All (λ (st : StateIr). get_elem? all st.id ≡ some st) states
    → lookup_name n (insert_states states m) ≡ some id
    → (lookup_name n m ≡ some id) ⊎ (st : StateIr) × (get_elem? all id ≡ some st) × (st.name ≡ n)
insert_states-found all [] m n id h e = inl e
insert_states-found all (s ∷ rest) m n id h e = elim (Bool-cases (str_eq s.name "__Root")) [
  | inl root ↦ insert_states-found all rest m n id h.1 (rw root at e)
  | inr other ↦ elim (insert_states-found all rest ((s.name, s.id) ∷ m) n id h.1 (rw other at e)) [
    | inr later ↦ inr later
    | inl here ↦ elim (Bool-cases (str_eq s.name n)) [
      | inl hit ↦
          let same : s.id ≡ id = ground arith in
          inr (s, subst (λ i. get_elem? all i ≡ some s) same h.0, (eq_iff s.name n).0 hit)
      | inr miss ↦ inl (ground arith)
    ]
  ]
]

name_map-found :
    (ir : Ir) (n : String) (id : ℕ)
    → All (λ (st : StateIr). get_elem? ir.states st.id ≡ some st) ir.states
    → lookup_name n (name_map ir) ≡ some id
    → Bears ir n id
unfolding name_map Bears
name_map-found ir n id h e = elim (Option-cases (find_root ir.states)) [
  | inl rootless ↦
      elim (insert_states-found ir.states ir.states [] n id h (rw (rootless, name_map) at e)) [
        | inl empty ↦ cc
        | inr (st, at, called) ↦ (st, at, inl called)
      ]
  | inr (root, found) ↦
      let e' : lookup_name n ((ir.name, root.id) ∷ insert_states ir.states []) ≡ some id =
        rw (found, name_map) at e in
      elim (Bool-cases (str_eq ir.name n)) [
        | inl hit ↦
            let same : root.id ≡ id = ground arith in
            let (at, top) = find_root-found ir.states ir.states h found in
            (
              root,
              subst (λ i. get_elem? ir.states i ≡ some root) same at,
              inr ((eq_iff ir.name n).0 hit, top),
            )
        | inr miss ↦ elim (insert_states-found ir.states ir.states [] n id h (ground arith)) [
          | inl empty ↦ cc
          | inr (st, at, called) ↦ (st, at, inl called)
        ]
      ]
]

pub indexed-All :
    (all : List StateIr) (P : StateIr → Type 0)
    → ((i : ℕ) (st : StateIr) → get_elem? all i ≡ some st → P st)
    → All P all
indexed-All [] P h = tt
indexed-All (x ∷ xs) P h = (h 0 x refl, indexed-All xs P (λ i st e. h (suc i) st e))

-- On states whose ids are their indexes, `resolve_transitions` gives every transition that has no id
-- yet, and every default, the id of a state that goes by the target's name, and changes nothing else.
pub resolve_transitions-Both :
    (ir ir' : Ir)
    → ((i : ℕ) (st : StateIr) → get_elem? ir.states i ≡ some st → st.id ≡ i)
    → resolve_transitions ir ≡ accepted ir'
    → (record ir' { states = ir.states } ≡ ir) × Both (Settles (Bears ir)) ir.states ir'.states
unfolding resolve_transitions
resolve_transitions-Both ir ir' indexed h =
    let (targeted, one, h1) = >>=-eq-accepted (resolve_targets (name_map ir) ir.states) _ h in
    let (states, two, h2) = >>=-eq-accepted (resolve_defaults (name_map ir) targeted) _ h1 in
    let same : record ir { states = states } ≡ ir' = cc in
    let here =
      indexed-All ir.states (λ (st : StateIr). get_elem? ir.states st.id ≡ some st)
        (λ i st at. ap (get_elem? ir.states) (indexed i st at) ∙ at) in
    subst
      (λ (r : Ir).
        (record r { states = ir.states } ≡ ir) × Both (Settles (Bears ir)) ir.states r.states)
      same
      (
        refl,
        resolve-Both (name_map ir) (Bears ir) (λ n id e. name_map-found ir n id here e) ir.states
            one two,
      )
