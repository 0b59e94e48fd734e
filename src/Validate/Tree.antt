-- ===== src/Validate/Tree.antt =====
-- `validate_parse_tree` of hsmc-macros/src/validate.rs against the trees it is meant to accept.
use Prim.Native.String.{String}
use hsmc.Input.{Items, StateBody, StateDecls, StatechartInput, body, nil, cons}
use hsmc.Prelude.{
  ℕ, ◌≤◌, ◌≡◌, ltb, refl, Bool, true, false, Bool-cases, inl, inr, Option, none, some, arith,
}
use hsmc.Refusal.{accepted, >>=-eq-accepted}
use hsmc.Validate.{
  check_terminate, check_counts, validate_body, validate_children, validate_parse_tree,
}

-- A body has one `default` and one `terminate` at most, and below the root no `terminate`.
unfoldable mutual
  pub IsSingle : Bool → StateBody → Type 0
  IsSingle is_root (body items kids) =
      (items.default_count ≤ 1)
      × (items.terminate_count ≤ 1)
      × (is_root ≡ false → items.terminate ≡ none)
      × AreSingle kids

  pub AreSingle : StateDecls → Type 0
  AreSingle nil = Unit
  AreSingle (cons name b rest) = IsSingle false b × AreSingle rest

ltb-le : (n : ℕ) → ltb 1 n ≡ false → n ≤ 1
ltb-le n h = ground (arith, h)

le-ltb : (n : ℕ) → n ≤ 1 → ltb 1 n ≡ false
le-ltb n h = ground (arith, h)

check_counts-single :
    (name : String) (items : Items) {u : Unit {0}}
    → check_counts name items ≡ accepted u
    → (items.default_count ≤ 1) × (items.terminate_count ≤ 1)
check_counts-single name items e = elim (Bool-cases (ltb 1 items.default_count)) [
  | inl many ↦ ground arith
  | inr one ↦ elim (Bool-cases (ltb 1 items.terminate_count)) [
    | inl many ↦ ground arith
    | inr once ↦ (ltb-le items.default_count one, ltb-le items.terminate_count once)
  ]
]

check_terminate-root :
    (is_root : Bool) (t : Option String) {u : Unit {0}}
    → check_terminate is_root t ≡ accepted u
    → is_root ≡ false
    → t ≡ none
check_terminate-root true t e f = cc
check_terminate-root false none e f = refl
check_terminate-root false (some t) e f = cc

check_terminate-fine :
    (is_root : Bool) (t : Option String)
    → (is_root ≡ false → t ≡ none)
    → check_terminate is_root t ≡ accepted tt
check_terminate-fine true t h = refl
check_terminate-fine false none h = refl
check_terminate-fine false (some t) h = let gone = h refl in cc

mutual
  unfolding validate_body IsSingle

  body-IsSingle :
      (b : StateBody) (is_root : Bool) (name : String) {u : Unit {0}}
      → validate_body b is_root name ≡ accepted u
      → IsSingle is_root b
  body-IsSingle (body items kids) is_root name e =
      let (a, counts, e1) = >>=-eq-accepted (check_counts name items) _ e in
      let (c, inner, e2) = >>=-eq-accepted (check_terminate is_root items.terminate) _ e1 in
      let (one, once) = check_counts-single name items counts in
      (one, once, check_terminate-root is_root items.terminate inner, children-AreSingle kids e2)

  children-AreSingle :
      (kids : StateDecls) {u : Unit {0}} → validate_children kids ≡ accepted u → AreSingle kids
  children-AreSingle nil e = tt
  children-AreSingle (cons name b rest) e =
      let (a, one, e1) = >>=-eq-accepted (validate_body b false name) _ e in
      (body-IsSingle b false name one, children-AreSingle rest e1)

mutual
  unfolding validate_body IsSingle

  single-accepted :
      (b : StateBody) (is_root : Bool) (name : String)
      → IsSingle is_root b
      → validate_body b is_root name ≡ accepted tt
  single-accepted (body items kids) is_root name (one, once, inner, below) =
      rw
        (
          le-ltb items.default_count one,
          le-ltb items.terminate_count once,
          check_terminate-fine is_root items.terminate inner,
        )
        (all-accepted kids below)

  all-accepted : (kids : StateDecls) → AreSingle kids → validate_children kids ≡ accepted tt
  all-accepted nil h = refl
  all-accepted (cons name b rest) (one, others) =
      rw (single-accepted b false name one) (all-accepted rest others)

-- `validate_parse_tree` accepts a tree exactly if every state of it has one `default` and one
-- `terminate` at most, and no state below the root has a `terminate`.
pub validate_parse_tree_lem :
    (input : StatechartInput)
    → (validate_parse_tree input ≡ accepted tt → IsSingle true input.root)
      × (IsSingle true input.root → validate_parse_tree input ≡ accepted tt)
unfolding validate_parse_tree
validate_parse_tree_lem input =
    (body-IsSingle input.root true input.name, single-accepted input.root true input.name)
