-- ===== src/Codegen/Checks/Passes.antt =====
-- The tables that `generate` of hsmc-macros/src/codegen.rs lays out pass the assertions that it emits.
use Prim.Native.String.{String}
use hsmc.Codegen.Checks.{
  check_path_range_invariant, check_terminate_range_invariant, check_state_ids_in_bounds,
  check_default_child_in_bounds, const_assertions,
}
use hsmc.Codegen.Checks.Correct.{
  InStates, All-path_range, All-terminate_range, All-state_ids, All-default_child, both_and,
}
use hsmc.Codegen.Dispatch.{compute_event_dispatch}
use hsmc.Codegen.Generate.{generate, lay_out}
use hsmc.Codegen.Tables.{
  Blob, no_blob, PathTable, rows, compute_transition_paths, path_table, compute_terminate_paths,
}
use hsmc.Codegen.Walks.Tree.{IsTree}
use hsmc.Ir.{Ir, StateIr, as_u16, parent_of, depth_of}
use hsmc.Lower.Bodies.Forest.{IsForest-IsTree}
use hsmc.Lower.Resolve.Targets.{IsResolved, IsKnown}
use hsmc.Machine.{Chart}
use hsmc.Machine.Sound.{IsTarget}
use hsmc.Prelude.{
  ℕ, suc, ◌<◌, ◌≡◌, ap, sym, subst, refl, true, Option, none, some, >>=-eq-some, List, [], ◌∷◌, map,
  length, All, arith,
}
use hsmc.Codegen.Checks.Fits.{
  BlobFits, TableFits, merge-TableFits, rows-Ids, for_pairs-Ids, for_states-BlobFits,
}

module _ (ir : Ir) (resolved : IsResolved ir) (few : length ir.states < 65536) where
  states-IsTree : IsTree (length ir.states) (parent_of ir.states) (depth_of ir.states)
  states-IsTree = IsForest-IsTree ir.states resolved.forest

  path_table-TableFits :
      {t : PathTable} → path_table ir.states ≡ some t → TableFits (length ir.states) t
  unfolding path_table compute_transition_paths
  path_table-TableFits h =
      let n = length ir.states in
      let same : as_u16 n ≡ n = omega arith in
      let (u, made, merged) = >>=-eq-some (compute_transition_paths ir.states) _ h in
      let pairs : All (λ (q : ℕ × ℕ). (q.0 < n) × (q.1 < n)) (rows (as_u16 n) (as_u16 n) 0) =
        rw same (rows-Ids n n 0 (omega arith)) in
      let (hx, hy) =
        for_pairs-Ids states-IsTree (rows (as_u16 n) (as_u16 n) 0)
          (record { exits = no_blob; enters = no_blob }) pairs made tt tt in
      merge-TableFits n u.exits.blob u.enters.blob u.exits.range u.enters.range
        (record { path_data = []; path_range = [] }) merged hx hy (record { ids = tt; ranges = tt })

  terminate-BlobFits :
      {b : Blob} → compute_terminate_paths ir.states ≡ some b → BlobFits (length ir.states) b
  unfolding compute_terminate_paths
  terminate-BlobFits h =
      for_states-BlobFits states-IsTree (as_u16 (length ir.states)) 0 no_blob (omega arith) h
        (record { ids = tt; ranges = tt })

defaults-InStates :
    (n : ℕ) (states : List StateIr)
    → All (IsKnown n) states
    → All (InStates n) (map (λ (s : StateIr). s.default_child) states)
defaults-InStates n [] h = tt
defaults-InStates n (s ∷ rest) h = (in_states s.default_child h.0.1, defaults-InStates n rest h.1)
  where
    in_states : (d : Option ℕ) → IsTarget n d → InStates n d
    in_states none k = tt
    in_states (some t) k = k

length-defaults :
    (states : List StateIr) → length (map (λ (s : StateIr). s.default_child) states) ≡ length states
length-defaults [] = refl
length-defaults (s ∷ rest) = ap suc (length-defaults rest)

-- Every chart that `generate` lays out for fewer than 65536 states whose targets are resolved passes
-- the assertions on its tables.
pub generate-const_assertions :
    (as_bytes : String → List ℕ) (value : String → ℕ) (ir : Ir) (chart : Chart)
    → IsResolved ir
    → length ir.states < 65536
    → generate as_bytes value ir ≡ some chart
    → const_assertions chart ≡ true
unfolding generate const_assertions
generate-const_assertions as_bytes value ir chart resolved few h =
    let n = length ir.states in
    let (paths, p, h1) = >>=-eq-some (path_table ir.states) _ h in
    let (ends, t, h2) = >>=-eq-some (compute_terminate_paths ir.states) _ h1 in
    let (dispatch, d, h3) = >>=-eq-some (compute_event_dispatch ir) _ h2 in
    let same : lay_out as_bytes value ir paths ends dispatch ≡ chart = cc in
    let fits = path_table-TableFits ir resolved few p in
    let stops = terminate-BlobFits ir resolved few t in
    let defaults = defaults-InStates n ir.states resolved.known in
    let size = sym (length-defaults ir.states) in
    subst (λ (c : Chart). const_assertions c ≡ true) same
      (both_and _ (check_state_ids_in_bounds ends.blob _)
        (both_and _ (check_state_ids_in_bounds paths.path_data _)
          (both_and _
            (check_default_child_in_bounds (map (λ (s : StateIr). s.default_child) ir.states) _)
            (both_and (check_path_range_invariant paths.path_range (length paths.path_data))
              (check_terminate_range_invariant ends.range (length ends.blob))
              (All-path_range (length paths.path_data) paths.path_range fits.ranges)
              (All-terminate_range (length ends.blob) ends.range stops.ranges))
            (subst
              (λ k.
                check_default_child_in_bounds (map (λ (s : StateIr). s.default_child) ir.states) k
                ≡ true)
              size (All-default_child n _ defaults)))
          (subst (λ k. check_state_ids_in_bounds paths.path_data k ≡ true) size
            (All-state_ids n paths.path_data fits.ids)))
        (subst (λ k. check_state_ids_in_bounds ends.blob k ≡ true) size
          (All-state_ids n ends.blob stops.ids)))
