-- ===== src/Lower/Bodies/Interned/Entries.antt =====
-- Entries of a table and the ids (`u16`) they are found by (hsmc-macros/src/ir.rs).
use hsmc.Ir.{as_u16}
use hsmc.Lower.{index_of}
use hsmc.Prelude.{
  ℕ, zero, suc, ◌+◌, ◌≤◌, ◌≡◌, ◌∙◌, ap, sym, refl, Bool, true, Bool-cases, inl, inr, some, List, [],
  ◌∷◌, ◌++◌, map, length, length-append, get_elem?, get_elem?-range, get_elem?-append_last, set,
  arith,
}

-- What `index_of` finds.
pub index_of-found :
    {A : Type 0} (p : A → Bool) (i : ℕ) (xs : List A) {k : ℕ}
    → index_of p i xs ≡ some k
    → (j : ℕ) × (a : A) × (k ≡ i + j) × (get_elem? xs j ≡ some a) × (p a ≡ true)
index_of-found p i [] h = cc
index_of-found p i (x ∷ xs) h = elim (Bool-cases (p x)) [
  | inl here ↦ (0, x, ground arith, refl, here)
  | inr other ↦
      let (j, a, e, at, found) = index_of-found p (i + 1) xs (rw (other) at h) in
      (suc j, a, omega (arith, e), at, found)
]

pub map-at :
    {A B : Type 0} (f : A → B) (xs : List A) (i : ℕ) {a : A}
    → get_elem? xs i ≡ some a
    → get_elem? (map f xs) i ≡ some (f a)
map-at f [] i h = cc
map-at f (x ∷ xs) zero h = let same : x ≡ _ = cc in ap (λ y. some (f y)) same
map-at f (x ∷ xs) (suc i) h = map-at f xs i h

pub map-set :
    {A B : Type 0} (f : A → B) (xs : List A) (i : ℕ) (old new : A)
    → get_elem? xs i ≡ some old
    → f new ≡ f old
    → map f (set xs i new) ≡ map f xs
map-set f [] i old new h e = cc
map-set f (x ∷ xs) zero old new h e =
    let same : x ≡ old = cc in ap (λ y. y ∷ map f xs) (e ∙ ap f (sym same))
map-set f (x ∷ xs) (suc i) old new h e = ap (λ l. f x ∷ l) (map-set f xs i old new h e)

pub map-snoc :
    {A B : Type 0} (f : A → B) (xs : List A) (x : A) → map f (xs ++ x ∷ []) ≡ map f xs ++ f x ∷ []
map-snoc f [] x = refl
map-snoc f (y ∷ xs) x = ap (λ l. f y ∷ l) (map-snoc f xs x)

length-map : {A B : Type 0} (f : A → B) (xs : List A) → length (map f xs) ≡ length xs
length-map f [] = refl
length-map f (x ∷ xs) = ap suc (length-map f xs)

-- The id of an entry of a table that fits.
pub small_id :
    {A : Type 0} (xs : List A) (j p : ℕ) {a : A}
    → length xs ≤ 65536
    → p ≡ 0 + j
    → get_elem? xs j ≡ some a
    → get_elem? xs (as_u16 p) ≡ some a
small_id xs j p fits e at =
    let range = get_elem?-range xs j at in let same : as_u16 p ≡ j = omega (arith, e) in rw same at

-- The entry that is appended.
pub last_id :
    {A B : Type 0} (f : A → B) (xs : List A) (x : A)
    → length (map f (xs ++ x ∷ [])) ≤ 65536
    → get_elem? (map f (xs ++ x ∷ [])) (as_u16 (length xs)) ≡ some (f x)
last_id f xs x fits =
    let size : as_u16 (length xs) ≡ length (map f xs) =
      omega (arith, length-map f xs, length-map f (xs ++ x ∷ []), length-append xs (x ∷ [])) in
    rw (map-snoc f xs x, size) (get_elem?-append_last (map f xs) (f x) [])
