-- ===== src/Heapless.antt =====
-- The containers of the third-party crate `heapless` that hsmc/src/lib.rs builds on, as parameters.
-- Each is read through the slice of its elements, front first, with the capacity as an argument; the
-- laws are what the crate documents of the calls that hsmc makes.
use hsmc.Prelude.{
  ℕ, ◌≤◌, ◌<◌, ◌≡◌, Bool, Option, none, some, List, [], ◌∷◌, ◌++◌, length, get_elem?, set, init,
  last_or, if◌then◌else◌,
}

-- `heapless::Deque<E, N>`
pub record Deque (E : Type 0) : Type 0 where
  pub push_back : ℕ → List E → E → Option (List E)
  pub pop_front : List E → Option (E × List E)
  pub push_room :
      (cap : ℕ) (xs : List E) (e : E) → length xs < cap → push_back cap xs e ≡ some (xs ++ e ∷ [])
  pub push_full : (cap : ℕ) (xs : List E) (e : E) → cap ≤ length xs → push_back cap xs e ≡ none
  pub pop_empty : pop_front [] ≡ none
  pub pop_first : (e : E) (xs : List E) → pop_front (e ∷ xs) ≡ some (e, xs)

-- `heapless::Vec<A, N>`
pub record HeaplessVec (A : Type 0) : Type 0 where
  pub push : ℕ → List A → A → Option (List A)
  pub retain : (A → Bool) → List A → List A
  pub swap_remove : List A → ℕ → Option (A × List A)
  pub push_room :
      (cap : ℕ) (xs : List A) (a : A) → length xs < cap → push cap xs a ≡ some (xs ++ a ∷ [])
  pub push_full : (cap : ℕ) (xs : List A) (a : A) → cap ≤ length xs → push cap xs a ≡ none
  pub retain_nil : (keep : A → Bool) → retain keep [] ≡ []
  pub retain_cons :
      (keep : A → Bool) (a : A) (xs : List A)
      → retain keep (a ∷ xs) ≡ (if keep a then a ∷ retain keep xs else retain keep xs)
  -- the removed element is replaced by the last one
  pub swap_removed :
      (xs : List A) (i : ℕ) (a : A)
      → get_elem? xs i ≡ some a
      → swap_remove xs i ≡ some (a, set (init xs) i (last_or a xs))
