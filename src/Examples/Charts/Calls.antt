-- ===== src/Examples/Charts/Calls.antt =====
-- The theorems about further calls of the machine that hsmc-macros/src/codegen.rs generates, applied
-- to the chart of the example.
use Prim.Native.String.{String}
use hsmc.Codegen.Walks
use hsmc.Codegen.Walks.Tree.{chain}
use hsmc.Examples.{states, parent}
use hsmc.Examples.Charts.{env, sound}
use hsmc.Ir.{StateIr, parent_of}
use hsmc.Journal.{Reply, ok}
use hsmc.Machine.{Machine}
use hsmc.Machine.Current.{current_state, current_state_lem}
use hsmc.Machine.Dispatch.{dispatch}
use hsmc.Machine.Sound.{IsSound, path_of}
use hsmc.Machine.Sound.Drains.{dispatch-IsSound}
use hsmc.Machine.Trace.{Goes}
use hsmc.Prelude.{
  ℕ, zero, suc, ◌≡◌, ap, sym, refl, ◌⊎◌, true, false, Option, none, some, [], get_elem?, arith,
}

-- In 3, below 2, with nothing to do.
abbrev lit : Machine String ℕ
lit = record {
  ctx = 0;
  current = some 3;
  queue = [];
  timers = [];
  terminated = false;
  overflow = false;
  journal = [];
}

lit-IsSound : IsSound env parent lit
unfolding chain Walks.Tree.ancestry parent_of
lit-IsSound = record { known = omega arith; ended = λ over. cc; owned = tt; idle = λ off. refl }

dispatch_call_example :
    (m' : Machine String ℕ) × (r : Option Reply) × (dispatch env 2 "Go" lit ≡ some (m', r))
    × IsSound env parent m'
    × Goes env parent (path_of env parent lit) lit m' (path_of env parent m')
    × (r ≡ some ok → (m'.terminated ≡ true) ⊎ (m'.queue ≡ []))
dispatch_call_example = dispatch-IsSound sound 2 "Go" lit lit-IsSound

abbrev id_or : Option StateIr → ℕ
id_or none = 0
id_or (some st) = st.id

indexed : (i : ℕ) (st : StateIr) → get_elem? states i ≡ some st → st.id ≡ i
indexed zero st e = ap id_or (sym e)
indexed (suc zero) st e = ap id_or (sym e)
indexed (suc (suc zero)) st e = ap id_or (sym e)
indexed (suc (suc (suc zero))) st e = ap id_or (sym e)
indexed (suc (suc (suc (suc i)))) st e = cc

current_state_example :
    (lit.current ≡ none → current_state states lit ≡ none)
    × ((c : ℕ) (st : StateIr)
        → lit.current ≡ some c
        → get_elem? states c ≡ some st
        → ((st.parent ≡ none) × (current_state states lit ≡ none))
          ⊎ ((p : ℕ) × (st.parent ≡ some p) × (current_state states lit ≡ some st.name)))
current_state_example = current_state_lem states lit indexed
