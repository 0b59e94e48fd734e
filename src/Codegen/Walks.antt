-- ===== src/Codegen/Walks.antt =====
-- The walks over the parent relation in `compute_transition_paths` and `compute_terminate_paths` of
-- hsmc-macros/src/codegen.rs. `parent` and `depth` are the closures of the source; `fuel` bounds the
-- rounds of a `while` or `loop`, and a walk that it stops returns `none`, as a panic does.
pub mod Tree
pub mod Reach
pub mod Correct
use mathlib.Core.Option
use hsmc.Prelude.{
  ℕ, zero, suc, ◌-◌, Bool, true, false, not, ◌&&◌, Option, none, some, List, [], ◌∷◌, reverse, ◌==◌,
  if◌then◌else◌, ◌>>=◌,
}

-- `Some(cur) == stop`
abbrev pub at_stop : Option ℕ → ℕ → Bool
at_stop none cur = false
at_stop (some s) cur = cur == s

module _ (parent : ℕ → Option ℕ) where
  -- `while da > db { a = parent(a)?; da -= 1; }`, by the rounds `da - db`
  unfoldable pub climb : ℕ → ℕ → Option ℕ
  climb zero a = some a
  climb (suc k) a = elim (parent a) [ none ↦ none | some p ↦ climb k p ]

  -- `while a != b { a = parent(a)?; b = parent(b)?; }`
  unfoldable pub meet : ℕ → ℕ → ℕ → Option ℕ
  meet zero a b = none
  meet (suc fuel) a b = elim (a == b) [
    | true ↦ some a
    | false ↦ elim (parent a) [
      | none ↦ none
      | some p ↦ elim (parent b) [ none ↦ none | some q ↦ meet fuel p q ]
    ]
  ]

  unfoldable pub lca : (depth : ℕ → ℕ) (fuel a b : ℕ) → Option ℕ
  unfolding climb meet
  lca depth fuel a b = do
    a' ← climb (depth a - depth b) a
    b' ← climb (depth b - depth a) b
    meet fuel a' b'

  -- `while let Some(c) = cur { if c == anc { return true; } cur = parent(c); } false`
  unfoldable pub passes : ℕ → ℕ → Option ℕ → Bool
  passes zero anc cur = false
  passes (suc fuel) anc none = false
  passes (suc fuel) anc (some c) = elim (c == anc) [
    | true ↦ true
    | false ↦ passes fuel anc (parent c)
  ]

  unfoldable pub is_strict_ancestor : ℕ → ℕ → ℕ → Bool
  unfolding passes
  is_strict_ancestor fuel anc desc = passes fuel anc (parent desc)

  -- `while cur != to { exit_path.push(cur); cur = parent(cur).expect(..); }`
  unfoldable pub up_walk : ℕ → ℕ → ℕ → Option (List ℕ)
  up_walk zero to cur = none
  up_walk (suc fuel) to cur = elim (cur == to) [
    | true ↦ some []
    | false ↦ elim (parent cur) [
      | none ↦ none
      | some p ↦ Option.map (λ rest. cur ∷ rest) (up_walk fuel to p)
    ]
  ]

  -- `loop { if Some(cur) == lca_id { break; } path.push(cur); match parent(cur) { .. } }`
  unfoldable pub lateral_walk : ℕ → Option ℕ → ℕ → Option (List ℕ)
  lateral_walk zero stop cur = none
  lateral_walk (suc fuel) stop cur = elim (at_stop stop cur) [
    | true ↦ some []
    | false ↦ elim (parent cur) [
      | none ↦ some (cur ∷ [])
      | some p ↦ Option.map (λ rest. cur ∷ rest) (lateral_walk fuel stop p)
    ]
  ]

  -- The (exit, enter) pair of one transition.
  unfoldable pub compute_one : (depth : ℕ → ℕ) (fuel from to : ℕ) → Option (List ℕ × List ℕ)
  unfolding lca is_strict_ancestor up_walk lateral_walk
  compute_one depth fuel from to =
      if not (from == to) && is_strict_ancestor fuel to from
      then (do exit ← up_walk fuel to from; some (exit, []))
      else if from == to
      then some (to ∷ [], to ∷ [])
      else (do
        let lca_id = lca depth fuel from to
        exit ← lateral_walk fuel lca_id from
        rev ← lateral_walk fuel lca_id to
        some (exit, reverse rev))

  -- `while let Some(s) = cur { data.push(s); cur = parent(s); }` of `compute_terminate_paths`
  unfoldable pub terminate_walk : ℕ → ℕ → Option (List ℕ)
  terminate_walk zero s = none
  terminate_walk (suc fuel) s = elim (parent s) [
    | none ↦ some (s ∷ [])
    | some p ↦ Option.map (λ rest. s ∷ rest) (terminate_walk fuel p)
  ]
