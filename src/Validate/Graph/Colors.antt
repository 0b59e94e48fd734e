-- ===== src/Validate/Graph/Colors.antt =====
-- The colours of the walk of hsmc-macros/src/validate.rs: writes, the number of white states, and the
-- chain.
use Prim.Native.String.{String}
use hsmc.Ir.{StateIr}
use hsmc.Journal.Replay.{In}
use hsmc.Lower.{index_of}
use hsmc.Prelude.{
  ℕ, zero, suc, ◌+◌, ◌<◌, ◌≤◌, ◌≡◌, ◌≢◌, ◌==◌, ≡→==, ap, sym, refl, ◌⊎◌, inl, inr, Bool-cases, some,
  some_case, List, [], ◌∷◌, ◌++◌, length, get_elem?, get_elem?-some, set, drop, arith,
}
use hsmc.Refusal.{Result, accepted}
use hsmc.Validate.Graph.{Color, white, gray, black, all_white, names_of, paint}

pub length-set : {A : Type 0} (xs : List A) (i : ℕ) (v : A) → length (set xs i v) ≡ length xs
length-set [] i v = refl
length-set (x ∷ xs) zero v = refl
length-set (x ∷ xs) (suc i) v = ap suc (length-set xs i v)

-- What is read after a write: the value written, or what stood there.
pub get_elem?-set :
    {A : Type 0} (xs : List A) (i : ℕ) (v : A) (j : ℕ) {b : A}
    → get_elem? (set xs i v) j ≡ some b
    → ((j ≡ i) × (v ≡ b)) ⊎ ((j ≢ i) × (get_elem? xs j ≡ some b))
get_elem?-set [] i v j h = cc
get_elem?-set (x ∷ xs) zero v zero h = inl (refl, cc)
get_elem?-set (x ∷ xs) zero v (suc j) h = inr ((λ e. omega (arith, e)), h)
get_elem?-set (x ∷ xs) (suc i) v zero h = inr ((λ e. omega (arith, e)), h)
get_elem?-set (x ∷ xs) (suc i) v (suc j) h = elim (get_elem?-set xs i v j h) [
  | inl (e, same) ↦ inl (ap suc e, same)
  | inr (other, old) ↦ inr ((λ e. other (omega (arith, e))), old)
]

abbrev one_if_white : Color → ℕ
one_if_white white = 1
one_if_white gray = 0
one_if_white black = 0

pub whites : List Color → ℕ
whites [] = 0
whites (c ∷ cs) = one_if_white c + whites cs

pub whites-all_white : (n : ℕ) → whites (all_white n) ≡ n
unfolding whites
whites-all_white zero = refl
whites-all_white (suc n) = omega (arith, whites-all_white n)

pub whites-gray :
    (color : List Color) (i : ℕ)
    → get_elem? color i ≡ some white
    → whites (set color i gray) + 1 ≡ whites color
unfolding whites
whites-gray [] i h = cc
whites-gray (c ∷ cs) zero h = let same : c ≡ white = cc in omega (arith, ap one_if_white same)
whites-gray (c ∷ cs) (suc i) h = omega (arith, whites-gray cs i h)

whites-black : (color : List Color) (i : ℕ) → whites (set color i black) ≤ whites color
unfolding whites
whites-black [] i = omega arith
whites-black (c ∷ cs) zero = omega arith
whites-black (c ∷ cs) (suc i) = omega (arith, whites-black cs i)

pub whites-paint : (ids : List ℕ) (color : List Color) → whites (paint ids color) ≤ whites color
whites-paint [] color = omega arith
whites-paint (id ∷ ids) color =
    omega (arith, whites-paint ids (set color id black), whites-black color id)

pub length-paint : (ids : List ℕ) (color : List Color) → length (paint ids color) ≡ length color
length-paint [] color = refl
length-paint (id ∷ ids) color =
    omega (arith, length-paint ids (set color id black), length-set color id black)

-- What is black after painting was black or is painted.
pub paint-black :
    (ids : List ℕ) (color : List Color) (s : ℕ)
    → get_elem? (paint ids color) s ≡ some black
    → (get_elem? color s ≡ some black) ⊎ In s ids
paint-black [] color s h = inl h
paint-black (id ∷ ids) color s h = elim (paint-black ids (set color id black) s h) [
  | inr later ↦ inr (inr later)
  | inl before ↦ elim (get_elem?-set color id black s before) [
    | inl (here, same) ↦ inr (inl here)
    | inr (other, old) ↦ inl old
  ]
]

-- What is gray after painting was gray and is not painted.
pub paint-gray :
    (ids : List ℕ) (color : List Color) (s : ℕ)
    → get_elem? (paint ids color) s ≡ some gray
    → (get_elem? color s ≡ some gray) × (In s ids → ⊥)
paint-gray [] color s h = (h, λ i. i)
paint-gray (id ∷ ids) color s h =
    let (before, out) = paint-gray ids (set color id black) s h in
    elim (get_elem?-set color id black s before) [
      | inl (here, same) ↦ cc
      | inr (other, old) ↦ (old, λ i. elim i [ inl e ↦ other e | inr i' ↦ out i' ])
    ]

pub In-append_left : (x : ℕ) (xs ys : List ℕ) → In x xs → In x (xs ++ ys)
In-append_left x [] ys i = absurd i
In-append_left x (y ∷ xs) ys (inl e) = inl e
In-append_left x (y ∷ xs) ys (inr i) = inr (In-append_left x xs ys i)

pub In-snoc : (x y : ℕ) (xs : List ℕ) → x ≡ y → In x (xs ++ y ∷ [])
In-snoc x y [] e = inl e
In-snoc x y (z ∷ xs) e = inr (In-snoc x y xs e)

pub In-append_cases : (x : ℕ) (xs ys : List ℕ) → In x (xs ++ ys) → In x xs ⊎ In x ys
In-append_cases x [] ys i = inr i
In-append_cases x (y ∷ xs) ys (inl e) = inl (inl e)
In-append_cases x (y ∷ xs) ys (inr i) = elim (In-append_cases x xs ys i) [
  | inl a ↦ inl (inr a)
  | inr b ↦ inr b
]

pub In-drop : (x p : ℕ) (xs : List ℕ) → In x (drop p xs) → In x xs
In-drop x zero xs i = i
In-drop x (suc p) [] i = i
In-drop x (suc p) (y ∷ xs) i = inr (In-drop x p xs i)

-- A member of a chain has a position in it.
pub index_of-some :
    (x i : ℕ) (xs : List ℕ) → In x xs → (p : ℕ) × (index_of (λ y. y == x) i xs ≡ some p)
index_of-some x i [] h = absurd h
index_of-some x i (y ∷ xs) h = elim (Bool-cases (y == x)) [
  | inl hit ↦ (i, rw hit)
  | inr miss ↦ elim h [
    | inl e ↦ let hit = ≡→== y x (sym e) in absurd (cc)
    | inr later ↦ let (p, at) = index_of-some x (i + 1) xs later in (p, rw miss at)
  ]
]

pub names_of-some :
    (states : List StateIr) (ids : List ℕ)
    → ((s : ℕ) → In s ids → s < length states)
    → (names : List String) × (names_of states ids ≡ accepted names)
names_of-some states [] h = ([], refl)
names_of-some states (id ∷ ids) h =
    let (st, at) = get_elem?-some states id (h id (inl refl)) in
    let (names, e) = names_of-some states ids (λ s i. h s (inr i)) in
    (
      st.name ∷ names,
      some_case (get_elem? states id) (λ (r : Result (List String)). r ≡ accepted (st.name ∷ names))
          _ _ st at (rw e),
    )
