-- ===== src/EventQueue.antt =====
-- `EventQueue` of hsmc/src/lib.rs, by the slice of its deque.
pub mod Runs
use hsmc.Heapless.{Deque}
use hsmc.Journal.{Reply, ok, err, queue_full}
use hsmc.Prelude.{
  ℕ, ◌<◌, ◌≤◌, ◌≡◌, Option, none, some, List, [], ◌∷◌, ◌++◌, length, some_case, none_case, refl,
}

module _ {E : Type 0} (deque : Deque E) where
  pub push : ℕ → List E → E → List E × Reply
  push cap xs ev = elim (deque.push_back cap xs ev) [
    | some xs' ↦ (xs', ok)
    | none ↦ (xs, err queue_full)
  ]

  pub pop : List E → Option E × List E
  pop xs = elim (deque.pop_front xs) [ some (ev, rest) ↦ (some ev, rest) | none ↦ (none, xs) ]

  pub pop-first : (x : E) (rest : List E) → pop (x ∷ rest) ≡ (some x, rest)
  unfolding pop
  pop-first x rest =
      some_case (deque.pop_front (x ∷ rest)) (λ r. r ≡ (some x, rest)) _ _ (x, rest)
        (deque.pop_first x rest) refl

  pub pop-empty : pop [] ≡ (none, [])
  unfolding pop
  pop-empty = none_case (deque.pop_front []) (λ r. r ≡ (none, [])) _ _ deque.pop_empty refl

  pub push-room :
      (cap : ℕ) (xs : List E) (ev : E) → length xs < cap → push cap xs ev ≡ (xs ++ ev ∷ [], ok)
  unfolding push
  push-room cap xs ev room =
      some_case (deque.push_back cap xs ev) (λ r. r ≡ (xs ++ ev ∷ [], ok)) _ _ (xs ++ ev ∷ [])
        (deque.push_room cap xs ev room) refl

  pub push-full :
      (cap : ℕ) (xs : List E) (ev : E) → cap ≤ length xs → push cap xs ev ≡ (xs, err queue_full)
  unfolding push
  push-full cap xs ev full =
      none_case (deque.push_back cap xs ev) (λ r. r ≡ (xs, err queue_full)) _ _
        (deque.push_full cap xs ev full) refl
