-- ===== src/Timers.antt =====
-- `TimerTable` of hsmc/src/lib.rs. The entries are the slice of a `heapless::Vec<TimerEntry, N>`; a
-- duration is its count of nanoseconds, and a cast to `u64` is written out.
pub mod Owners
pub mod Laws
pub mod Fires
use mathlib.Core.Option
use hsmc.Prelude.{
  ℕ, ◌+◌, ◌-◌, ◌%◌, ◌^◌, Bool, true, false, not, ◌&&◌, Option, none, some, List, [], ◌∷◌, map, ltb,
  ◌==◌, if◌then◌else◌, get_elem?,
}
use hsmc.Heapless.{HeaplessVec}

pub record TimerEntry : Type 0 where
  pub state : ℕ
  pub trigger : ℕ
  pub remaining_ns : ℕ

-- `duration.as_nanos() as u64`
abbrev pub as_u64 : ℕ → ℕ
as_u64 n = n % 2 ^ 64

abbrev pub is_key : ℕ → ℕ → TimerEntry → Bool
is_key state trigger e = e.state == state && e.trigger == trigger

-- The loop of `start` over the entries, that returns at the first match.
unfoldable pub reset : ℕ → ℕ → ℕ → List TimerEntry → Option (List TimerEntry)
reset state trigger ns [] = none
reset state trigger ns (e ∷ es) =
    let rest = Option.map (λ es'. e ∷ es') (reset state trigger ns es) in
    if is_key state trigger e then some (record e { remaining_ns = ns } ∷ es) else rest

-- The loop of `pop_expired_nonempty`: `best` is an index into `all`. `none` is `depth[..]` out of range.
unfoldable pub scan : List ℕ → List TimerEntry → List TimerEntry → ℕ → Option ℕ → Option (Option ℕ)
scan depth all [] i best = some best
scan depth all (e ∷ es) i best =
    let skip = scan depth all es (i + 1) best in
    let take_it = scan depth all es (i + 1) (some i) in
    if e.remaining_ns == 0
    then elim best [
      | none ↦ take_it
      | some bi ↦ elim (get_elem? depth e.state) [
        | none ↦ none
        | some cur ↦ elim (get_elem? all bi) [
          | none ↦ none
          | some b ↦ elim (get_elem? depth b.state) [
            | none ↦ none
            | some prev ↦ if ltb prev cur then take_it else skip
          ]
        ]
      ]
    ]
    else skip

abbrev pub min_ns : ℕ → List TimerEntry → ℕ
min_ns least [] = least
min_ns least (e ∷ es) = min_ns (if ltb e.remaining_ns least then e.remaining_ns else least) es

unfoldable pub min_remaining : List TimerEntry → Option ℕ
min_remaining [] = none
min_remaining (e ∷ es) = some (min_ns e.remaining_ns es)

abbrev is_empty {ℓ} : {A : Type ℓ} → List A → Bool
is_empty [] = true
is_empty (x ∷ xs) = false

-- `saturating_sub`
abbrev pub count_down : ℕ → TimerEntry → TimerEntry
count_down ns e = record e { remaining_ns = e.remaining_ns - ns }

-- An empty table returns early.
unfoldable pub decrement : ℕ → List TimerEntry → List TimerEntry
decrement elapsed es = if is_empty es then es else map (count_down (as_u64 elapsed)) es

module _ (vec : HeaplessVec TimerEntry) where
  unfoldable pub start : ℕ → ℕ → ℕ → ℕ → List TimerEntry → List TimerEntry
  unfolding reset
  start cap state trigger duration es =
      let ns = as_u64 duration in
      elim (reset state trigger ns es) [
        | some es' ↦ es'
        | none ↦
            elim (vec.push cap es
              (record { state = state; trigger = trigger; remaining_ns = ns })) [
                | some es' ↦ es'
                | none ↦ es
              ]
      ]

  unfoldable pub cancel_state : ℕ → List TimerEntry → List TimerEntry
  cancel_state state es = if is_empty es then es else vec.retain (λ e. not (e.state == state)) es

  unfoldable pub cancel_one : ℕ → ℕ → List TimerEntry → List TimerEntry
  cancel_one state trigger es = vec.retain (λ e. not (is_key state trigger e)) es

  -- The fired (state, trigger), if any, and the table that is left.
  unfoldable pub pop_expired : List ℕ → List TimerEntry → Option (Option (ℕ × ℕ) × List TimerEntry)
  unfolding scan
  pop_expired depth es = elim (scan depth es es 0 none) [
    | none ↦ none
    | some none ↦ some (none, es)
    | some (some i) ↦ elim (vec.swap_remove es i) [
      | none ↦ none
      | some (e, es') ↦ some (some (e.state, e.trigger), es')
    ]
  ]
