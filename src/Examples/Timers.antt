-- ===== src/Examples/Timers.antt =====
-- The theorems about the timer table of hsmc/src/lib.rs applied to small tables.
use hsmc.Examples.{list_vec}
use mathlib.Core.Option
use hsmc.Timers.{TimerEntry, start, cancel_state, pop_expired, decrement, min_remaining, as_u64}
use hsmc.Timers.Laws.{
  remaining, written, start_lem, cancel_state_lem, decrement_lem, min_remaining_lem,
}
use hsmc.Timers.Fires.{Fires}
use hsmc.Prelude.{
  All, ◌-◌, ◌≤◌, ◌⊎◌, ◌==◌, if◌then◌else◌, ℕ, ◌<◌, ◌≡◌, ◌≢◌, refl, none, some, List, [], ◌∷◌,
  get_elem?,
}

-- An entry that is due.
abbrev due : TimerEntry
due = record { state = 1; trigger = 0; remaining_ns = 0 }

start_map_example :
    ((remaining 2 0 (due ∷ []) ≢ none) ⊎ (1 < 2)
      → (s' t' : ℕ)
      → remaining s' t' (start list_vec 2 2 0 500 (due ∷ []))
        ≡ written 2 0 (as_u64 500) (λ a b. remaining a b (due ∷ [])) s' t')
    × ((remaining 2 0 (due ∷ []) ≡ none) → 2 ≤ 1 → start list_vec 2 2 0 500 (due ∷ []) ≡ due ∷ [])
start_map_example = start_lem list_vec 2 2 0 500 (due ∷ [])

cancelled_map_example :
    remaining 1 0 (cancel_state list_vec 1 (due ∷ []))
    ≡ (if 1 == 1 then none else remaining 1 0 (due ∷ []))
cancelled_map_example = cancel_state_lem list_vec 1 1 0 (due ∷ [])

counted_down_example :
    remaining 1 0 (decrement 7 (due ∷ []))
    ≡ Option.map (λ r. r - as_u64 7) (remaining 1 0 (due ∷ []))
counted_down_example = decrement_lem 1 0 7 (due ∷ [])

min_remaining_example :
    (d : ℕ) × (min_remaining (due ∷ []) ≡ some d)
    × All (λ x. d ≤ x.remaining_ns) (due ∷ [])
    × ((i : ℕ) × (x : TimerEntry) × (get_elem? (due ∷ []) i ≡ some x) × (d ≡ x.remaining_ns))
min_remaining_example = min_remaining_lem due []

-- Two of the entries are due, and the deeper one stands last.
abbrev three : List TimerEntry
three =
    record { state = 0; trigger = 4; remaining_ns = 0 }
    ∷ record { state = 1; trigger = 5; remaining_ns = 7 }
    ∷ due
    ∷ []

deeper_fires :
    pop_expired list_vec (0 ∷ 1 ∷ []) three
    ≡ some (
      some (1, 0),
      record { state = 0; trigger = 4; remaining_ns = 0 }
          ∷ record { state = 1; trigger = 5; remaining_ns = 7 }
          ∷ [],
    )
unfolding pop_expired
deeper_fires = refl
