-- ===== src/Codegen/Tables/Terminate.antt =====
-- `compute_terminate_paths` of hsmc-macros/src/codegen.rs: the entry of a state is its whole active
-- path.
use hsmc.Ir.{StateIr, parent_of, depth_of, as_u16}
use hsmc.Codegen.Walks.{terminate_walk}
use hsmc.Prelude.{
  >>=-eq-some, List, ℕ, get_elem?, Option, length, ◌≡◌, [], ◌<◌, ◌+◌, some, suc, ◌≤◌, slice?, arith,
  ◌∷◌, ◌++◌, slice?-eq, ap, append-nil, ◌∙◌, zero, append_assoc, refl,
}
use hsmc.Codegen.Walks.Tree.{IsTree, chain}
use hsmc.Codegen.Walks.Reach.{terminate_walk_lem}
use hsmc.Codegen.Tables.{Blob, no_blob, extend, for_states, compute_terminate_paths}
use hsmc.Codegen.Tables.Slices.{Cuts, extend-Cuts}

Cuts-at :
    (blob : List ℕ) (range : List (ℕ × ℕ)) (paths : List (List ℕ)) (i : ℕ) (p : List ℕ)
    → Cuts blob range paths
    → get_elem? paths i ≡ some p
    → (s e : ℕ) × (get_elem? range i ≡ some (s, e)) × (slice? s e blob ≡ some p)
Cuts-at blob range [] i p k at = cc
Cuts-at blob [] (q ∷ paths) i p k at = absurd k
Cuts-at blob ((s, e) ∷ range) (q ∷ paths) zero p k at =
    let same : q ≡ p = cc in (s, e, refl, slice?-eq s e blob k.0 k.1 ∙ ap some (k.2 ∙ same))
Cuts-at blob ((s, e) ∷ range) (q ∷ paths) (suc i) p k at = Cuts-at blob range paths i p k.3 at

-- The active paths of `k` states from `from` on.
chains : (ℕ → Option ℕ) → ℕ → ℕ → List (List ℕ)
chains parent zero from = []
chains parent (suc k) from = chain parent from ∷ chains parent k (from + 1)

chains-at :
    (parent : ℕ → Option ℕ) (k from i : ℕ)
    → i < k
    → get_elem? (chains parent k from) i ≡ some (chain parent (from + i))
unfolding chains
chains-at parent zero from i h = absurd (omega arith)
chains-at parent (suc k) from zero h =
    let same : from ≡ from + 0 = omega arith in ap (λ s. some (chain parent s)) same
chains-at parent (suc k) from (suc i) h =
    let same : from + 1 + i ≡ from + suc i = omega arith in
    chains-at parent k (from + 1) i (omega arith) ∙ ap (λ s. some (chain parent s)) same

module _ {n : ℕ} {parent : ℕ → Option ℕ} {depth : ℕ → ℕ} (tree : IsTree n parent depth) where
  for_states-Cuts :
      (fuel k from : ℕ) (b : Blob) {b' : Blob} (paths : List (List ℕ))
      → from + k ≤ fuel
      → for_states parent fuel k from b ≡ some b'
      → Cuts b.blob b.range paths
      → Cuts b'.blob b'.range (paths ++ chains parent k from)
  unfolding for_states chains
  for_states-Cuts fuel zero from b {b'} paths hf h cuts =
      let same : b ≡ b' = cc in rw (← same, append-nil) cuts
  for_states-Cuts fuel (suc k) from b paths hf h cuts =
      let (path, walked, h1) = >>=-eq-some (terminate_walk parent fuel from) _ h in
      let (b1, ext, h2) = >>=-eq-some (extend b path) _ h1 in
      let same : path ≡ chain parent from = cc (terminate_walk_lem tree fuel from (omega arith)) in
      let all =
        for_states-Cuts fuel k (from + 1) b1 (paths ++ path ∷ []) (omega arith) h2
          (extend-Cuts b b1 path paths ext cuts) in
      rw (← same) (rw append_assoc at all)

module _ (states : List StateIr)
    (tree : IsTree (length states) (parent_of states) (depth_of states))
    (fits : length states < 65536) where
  -- For a tree of fewer than 65536 states whose table is built, what `__TERMINATE_RANGE[from]` cuts out of `__TERMINATE_DATA` is the active path of `from`.
  pub terminate_paths-at :
      {b : Blob} (from : ℕ)
      → compute_terminate_paths states ≡ some b
      → from < length states
      → (s e : ℕ) × (get_elem? b.range from ≡ some (s, e))
        × (slice? s e b.blob ≡ some (chain (parent_of states) from))
  unfolding compute_terminate_paths
  terminate_paths-at {b} from h hf =
      let n = length states in
      let same : as_u16 n ≡ n = omega arith in
      let all = for_states-Cuts tree n (as_u16 n) 0 no_blob [] (omega arith) h tt in
      let at : get_elem? (chains (parent_of states) (as_u16 n) 0) from
          ≡ some (chain (parent_of states) (0 + from)) =
        rw same (chains-at (parent_of states) n 0 from hf) in
      Cuts-at b.blob b.range _ from _ all
        (at ∙ ap (λ s. some (chain (parent_of states) s)) (omega arith))
