-- ===== src/Machine/Sound/Tables.antt =====
-- The path tables that hsmc-macros/src/codegen.rs computes are what the machine relies on.
use hsmc.Codegen.Walks.{compute_one}
use hsmc.Codegen.Walks.Tree.{IsTree, chain}
use hsmc.Codegen.Tables.{PathTable, Blob, path_table, compute_terminate_paths}
use hsmc.Codegen.Tables.Lookup.{path_table-at}
use hsmc.Codegen.Tables.Terminate.{terminate_paths-at}
use hsmc.Ir.{StateIr, parent_of, depth_of}
use hsmc.Machine.{Env}
use hsmc.Machine.Transitions.{path_slices}
use hsmc.Prelude.{
  ℕ, ◌<◌, ◌+◌, ◌*◌, ◌≡◌, sym, Option, some, List, length, get_elem?, slice?, slice, bind_case,
  arith,
}

-- The chart's path tables are those that the macro computes from its states.
pub record Built {Ev Ctx : Type 0} (env : Env Ev Ctx) (states : List StateIr) : Type 0 where
  pub count : env.n_states ≡ length states
  pub table : PathTable
  pub made : path_table states ≡ some table
  pub data_same : env.path_data ≡ table.path_data
  pub range_same : env.path_range ≡ table.path_range
  pub ends : Blob
  pub ends_made : compute_terminate_paths states ≡ some ends
  pub ends_data : env.terminate_data ≡ ends.blob
  pub ends_range : env.terminate_range ≡ ends.range

module _ {Ev Ctx : Type 0} (env : Env Ev Ctx) (states : List StateIr)
    (tree : IsTree (length states) (parent_of states) (depth_of states))
    (fits : length states < 65536) (built : Built env states) where
  paths_filled :
      (from to : ℕ)
      → from < env.n_states
      → to < env.n_states
      → path_slices env from to
        ≡ compute_one (parent_of states) (depth_of states) env.n_states from to
  unfolding path_slices
  paths_filled from to hf ht =
      let (s, m, e, r, c, d, one, moves) =
        path_table-at states tree fits from to built.made (omega (arith, built.count))
          (omega (arith, built.count)) in
      let at : get_elem? env.path_range (from * env.n_states + to) ≡ some (s, m, e) =
        rw (built.range_same, built.count) r in
      let exit : slice? s m env.path_data ≡ some (slice s m built.table.path_data) =
        rw built.data_same c in
      let enter : slice? m e env.path_data ≡ some (slice m e built.table.path_data) =
        rw built.data_same d in
      let one' : compute_one (parent_of states) (depth_of states) env.n_states from to
          ≡ some (slice s m built.table.path_data, slice m e built.table.path_data) =
        rw built.count one in
      let P = λ (o : Option (List ℕ × List ℕ)).
        o ≡ compute_one (parent_of states) (depth_of states) env.n_states from to in
      bind_case (get_elem? env.path_range (from * env.n_states + to)) P _ (s, m, e) at
        (bind_case (slice? s m env.path_data) P _ _ exit
          (bind_case (slice? m e env.path_data) P _ _ enter (sym one')))

  -- A chart whose path tables are those that the macro computes from a tree of fewer than 65536 states
  -- reads from them, for every pair of states, what `compute_one` finds, and for every state its
  -- active path.
  pub tables_fill :
      ((from to : ℕ)
        → from < env.n_states
        → to < env.n_states
        → path_slices env from to
          ≡ compute_one (parent_of states) (depth_of states) env.n_states from to)
      × ((s : ℕ)
          → s < env.n_states
          → (a b : ℕ) × (get_elem? env.terminate_range s ≡ some (a, b))
            × (slice? a b env.terminate_data ≡ some (chain (parent_of states) s)))
  tables_fill = (
    paths_filled,
    λ s h.
        let (a, b, r, c) =
          terminate_paths-at states tree fits s built.ends_made (omega (arith, built.count)) in
        (a, b, rw built.ends_range r, rw built.ends_data c),
  )
