-- ===== src/Timers/Fires.antt =====
-- Which entry `pop_expired` of `TimerTable` (hsmc/src/lib.rs) fires.
use hsmc.Heapless.{HeaplessVec}
use hsmc.Timers.{TimerEntry, pop_expired}
use hsmc.Timers.Owners.{Owners, Covered}
use hsmc.Prelude.{
  ℕ, ◌<◌, ◌≤◌, ◌≡◌, ◌≢◌, ◌⊎◌, Option, none, some, List, set, init, last_or, get_elem?,
}

abbrev or_zero : Option ℕ → ℕ
or_zero none = 0
or_zero (some d) = d

-- The depth of a state.
abbrev pub deep : List ℕ → ℕ → ℕ
deep depth s = or_zero (get_elem? depth s)

-- `P` holds of the first `n` entries.
abbrev Upto : List TimerEntry → ℕ → (ℕ → TimerEntry → Type 0) → Type 0
Upto all n P = (j : ℕ) (x : TimerEntry) → j < n → get_elem? all j ≡ some x → P j x

-- An entry that is due is not deeper than the entry `e` at `b`, and less deep where it stands earlier.
abbrev pub Leads : List ℕ → ℕ → TimerEntry → ℕ → TimerEntry → Type 0
Leads depth b e j x =
    x.remaining_ns ≡ 0
    → (deep depth x.state ≤ deep depth e.state) × (j < b → deep depth x.state < deep depth e.state)

abbrev IsWaiting : ℕ → TimerEntry → Type 0
IsWaiting j x = x.remaining_ns ≢ 0

module _ (depth : List ℕ) (all : List TimerEntry) (covered : Owners (Covered depth) all) where
  -- What the loop knows after `n` entries.
  abbrev Best : ℕ → Option ℕ → Type 0
  Best n none = Upto all n IsWaiting
  Best n (some b) =
      (e : TimerEntry) × (get_elem? all b ≡ some e)
      × (e.remaining_ns ≡ 0)
      × (b < n)
      × Upto all n (Leads depth b e)

-- What `pop_expired` does: nothing is due, or the first of the deepest entries that are due fires.
abbrev pub Fires : HeaplessVec TimerEntry → List ℕ → List TimerEntry → Type 0
Fires vec depth es =
    ((pop_expired vec depth es ≡ some (none, es))
      × ((j : ℕ) (x : TimerEntry) → get_elem? es j ≡ some x → x.remaining_ns ≢ 0))
    ⊎ ((i : ℕ) × (e : TimerEntry) × (get_elem? es i ≡ some e)
        × (e.remaining_ns ≡ 0)
        × (pop_expired vec depth es
            ≡ some (some (e.state, e.trigger), set (init es) i (last_or e es)))
        × ((j : ℕ) (x : TimerEntry) → get_elem? es j ≡ some x → Leads depth i e j x))
