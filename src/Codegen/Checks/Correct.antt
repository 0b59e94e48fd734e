-- ===== src/Codegen/Checks/Correct.antt =====
-- The checks of verification/src/paths.rs against what their contracts say.
use hsmc.Codegen.Checks.{
  check_path_range_invariant, check_terminate_range_invariant, check_state_ids_in_bounds,
  check_default_child_in_bounds, check_path_tables_sound,
}
use hsmc.Prelude.{
  ℕ, suc, ◌<◌, ◌≤◌, ◌≡◌, refl, Bool, Bool-cases, true, false, ◌&&◌, leb, leb→le, le→leb, inl, inr,
  Option, none, some, List, [], ◌∷◌, length, get_elem?, All, All-get_elem?, arith,
}

-- `s ≤ m ≤ e ≤ data_len`, and `s ≤ e ≤ data_len`.
abbrev pub InData : ℕ → ℕ × ℕ × ℕ → Type 0
InData len (s, m, e) = (s ≤ m) × (m ≤ e) × (e ≤ len)

abbrev pub InBlob : ℕ → ℕ × ℕ → Type 0
InBlob len (s, e) = (s ≤ e) × (e ≤ len)

abbrev pub InStates : ℕ → Option ℕ → Type 0
InStates n none = Unit
InStates n (some t) = t < n

-- What holds of a list at every index.
pub AllAt : {A : Type 0} → (A → Type 0) → List A → Type 0
AllAt {A} P xs = (i : ℕ) (a : A) → get_elem? xs i ≡ some a → P a

All-AllAt : {A : Type 0} (P : A → Type 0) (xs : List A) → All P xs → AllAt P xs
unfolding AllAt
All-AllAt P xs h = λ i a at. All-get_elem? P xs i a h at

AllAt-All : {A : Type 0} (P : A → Type 0) (xs : List A) → AllAt P xs → All P xs
unfolding AllAt
AllAt-All P [] h = tt
AllAt-All P (x ∷ xs) h = (h 0 x refl, AllAt-All P xs (λ i a at. h (suc i) a at))

and_both : (a b : Bool) → (a && b) ≡ true → (a ≡ true) × (b ≡ true)
and_both true b h = (refl, h)
and_both false b h = cc

pub both_and : (a b : Bool) → a ≡ true → b ≡ true → (a && b) ≡ true
both_and true b h k = k
both_and false b h k = cc

not_leb-lt : (n x : ℕ) → leb n x ≡ false → x < n
not_leb-lt n x h = ground (arith, h)

lt-not_leb : (n x : ℕ) → x < n → leb n x ≡ false
lt-not_leb n x h = ground (arith, h)

path_range-All :
    (len : ℕ) (range : List (ℕ × ℕ × ℕ))
    → check_path_range_invariant range len ≡ true
    → All (InData len) range
unfolding check_path_range_invariant
path_range-All len [] h = tt
path_range-All len ((s, m, e) ∷ rest) h = elim (Bool-cases (leb s m && leb m e && leb e len)) [
  | inr bad ↦ ground arith
  | inl good ↦
      let (ab, c) = and_both (leb s m && leb m e) (leb e len) good in
      let (a, b) = and_both (leb s m) (leb m e) ab in
      ((leb→le s m a, leb→le m e b, leb→le e len c), path_range-All len rest (ground arith))
]

pub All-path_range :
    (len : ℕ) (range : List (ℕ × ℕ × ℕ))
    → All (InData len) range
    → check_path_range_invariant range len ≡ true
unfolding check_path_range_invariant
All-path_range len [] h = refl
All-path_range len ((s, m, e) ∷ rest) h =
    let (a, b, c) = h.0 in
    rw (le→leb s m a, le→leb m e b, le→leb e len c) (All-path_range len rest h.1)

terminate_range-All :
    (len : ℕ) (range : List (ℕ × ℕ))
    → check_terminate_range_invariant range len ≡ true
    → All (InBlob len) range
unfolding check_terminate_range_invariant
terminate_range-All len [] h = tt
terminate_range-All len ((s, e) ∷ rest) h = elim (Bool-cases (leb s e && leb e len)) [
  | inr bad ↦ ground arith
  | inl good ↦
      let (a, b) = and_both (leb s e) (leb e len) good in
      ((leb→le s e a, leb→le e len b), terminate_range-All len rest (ground arith))
]

pub All-terminate_range :
    (len : ℕ) (range : List (ℕ × ℕ))
    → All (InBlob len) range
    → check_terminate_range_invariant range len ≡ true
unfolding check_terminate_range_invariant
All-terminate_range len [] h = refl
All-terminate_range len ((s, e) ∷ rest) h =
    let (a, b) = h.0 in rw (le→leb s e a, le→leb e len b) (All-terminate_range len rest h.1)

state_ids-All :
    (n : ℕ) (ids : List ℕ) → check_state_ids_in_bounds ids n ≡ true → All (λ x. x < n) ids
unfolding check_state_ids_in_bounds
state_ids-All n [] h = tt
state_ids-All n (x ∷ rest) h = elim (Bool-cases (leb n x)) [
  | inl bad ↦ ground arith
  | inr good ↦ (not_leb-lt n x good, state_ids-All n rest (ground arith))
]

pub All-state_ids :
    (n : ℕ) (ids : List ℕ) → All (λ x. x < n) ids → check_state_ids_in_bounds ids n ≡ true
unfolding check_state_ids_in_bounds
All-state_ids n [] h = refl
All-state_ids n (x ∷ rest) h = rw (lt-not_leb n x h.0) (All-state_ids n rest h.1)

default_child-All :
    (n : ℕ) (ds : List (Option ℕ)) → check_default_child_in_bounds ds n ≡ true → All (InStates n) ds
unfolding check_default_child_in_bounds
default_child-All n [] h = tt
default_child-All n (none ∷ rest) h = (tt, default_child-All n rest h)
default_child-All n (some t ∷ rest) h = elim (Bool-cases (leb n t)) [
  | inl bad ↦ ground arith
  | inr good ↦ (not_leb-lt n t good, default_child-All n rest (ground arith))
]

pub All-default_child :
    (n : ℕ) (ds : List (Option ℕ)) → All (InStates n) ds → check_default_child_in_bounds ds n ≡ true
unfolding check_default_child_in_bounds
All-default_child n [] h = refl
All-default_child n (none ∷ rest) h = All-default_child n rest h.1
All-default_child n (some t ∷ rest) h = rw (lt-not_leb n t h.0) (All-default_child n rest h.1)

-- Every range lies in its data, and every state id is one of a state.
pub TablesSound : List (ℕ × ℕ × ℕ) → List ℕ → List (ℕ × ℕ) → List ℕ → List (Option ℕ) → ℕ → Type 0
TablesSound path_range path_data terminate_range terminate_data default_child n =
    AllAt (InData (length path_data)) path_range
    × AllAt (InBlob (length terminate_data)) terminate_range
    × AllAt (λ x. x < n) path_data
    × AllAt (λ x. x < n) terminate_data
    × AllAt (InStates n) default_child

-- `check_path_tables_sound` holds exactly if at every index the ranges lie in their data, in order, and
-- the state ids are below the number of states.
pub check_path_tables_sound_lem :
    (pr : List (ℕ × ℕ × ℕ)) (pd : List ℕ) (tr : List (ℕ × ℕ)) (td : List ℕ) (dc : List (Option ℕ))
    (n : ℕ)
    → (check_path_tables_sound pr pd tr td dc n ≡ true → TablesSound pr pd tr td dc n)
      × (TablesSound pr pd tr td dc n → check_path_tables_sound pr pd tr td dc n ≡ true)
unfolding check_path_tables_sound TablesSound
check_path_tables_sound_lem pr pd tr td dc n = (
  λ h.
      let (h4, e) = and_both _ (check_default_child_in_bounds dc n) h in
      let (h3, d) = and_both _ (check_state_ids_in_bounds td n) h4 in
      let (h2, c) = and_both _ (check_state_ids_in_bounds pd n) h3 in
      let (a, b) = and_both _ (check_terminate_range_invariant tr (length td)) h2 in
      (
        All-AllAt (InData (length pd)) pr (path_range-All (length pd) pr a),
        All-AllAt (InBlob (length td)) tr (terminate_range-All (length td) tr b),
        All-AllAt (λ x. x < n) pd (state_ids-All n pd c),
        All-AllAt (λ x. x < n) td (state_ids-All n td d),
        All-AllAt (InStates n) dc (default_child-All n dc e),
      ),
  λ t.
      let a = All-path_range (length pd) pr (AllAt-All (InData (length pd)) pr t.0) in
      let b = All-terminate_range (length td) tr (AllAt-All (InBlob (length td)) tr t.1) in
      let c = All-state_ids n pd (AllAt-All (λ x. x < n) pd t.2) in
      let d = All-state_ids n td (AllAt-All (λ x. x < n) td t.3) in
      both_and _ (check_default_child_in_bounds dc n)
        (both_and _ (check_state_ids_in_bounds td n)
          (both_and _ (check_state_ids_in_bounds pd n)
            (both_and (check_path_range_invariant pr (length pd))
              (check_terminate_range_invariant tr (length td)) a b)
            c)
          d)
        (All-default_child n dc (AllAt-All (InStates n) dc t.4)),
)
