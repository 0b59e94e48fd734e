-- ===== src/Timers/Laws.antt =====
-- `TimerTable` of hsmc/src/lib.rs as a map from the keys (state, trigger) to the time that is left.
use mathlib.Core.Option
use hsmc.Heapless.{HeaplessVec}
use hsmc.Timers.{
  TimerEntry, is_key, as_u64, reset, start, decrement, count_down, cancel_state, min_remaining,
  min_ns,
}
use hsmc.Prelude.{
  get_elem?, suc, ℕ, ◌-◌, ◌<◌, ◌≤◌, ◌≡◌, ◌≢◌, refl, sym, subst, ◌⊎◌, inl, inr, Bool, true, false,
  not, ◌&&◌, ◌==◌, ltb, if◌then◌else◌, if_cases, Bool-cases, Option, none, some, Option-cases, List,
  [], ◌∷◌, ◌++◌, map, All, length, arith,
}

-- The time left under a key.
abbrev pub remaining : ℕ → ℕ → List TimerEntry → Option ℕ
remaining s t [] = none
remaining s t (e ∷ es) =
    let rest = remaining s t es in if is_key s t e then some e.remaining_ns else rest

abbrev pub same_key : ℕ → ℕ → ℕ → ℕ → Bool
same_key s t s' t' = s' == s && t' == t

-- What a map holds after one key is written.
abbrev pub written : ℕ → ℕ → ℕ → (ℕ → ℕ → Option ℕ) → ℕ → ℕ → Option ℕ
written s t ns old s' t' = if same_key s t s' t' then some ns else old s' t'

reset_lem :
    (s t ns s' t' : ℕ) (es : List TimerEntry) {es' : List TimerEntry}
    → reset s t ns es ≡ some es'
    → remaining s' t' es' ≡ written s t ns (λ a b. remaining a b es) s' t'
unfolding reset
reset_lem s t ns s' t' [] h = cc
reset_lem s t ns s' t' (e ∷ es) {es'} h = elim (Bool-cases (is_key s t e)) [
  | inl key ↦
      let same : record e { remaining_ns = ns } ∷ es ≡ es' = ground arith in
      subst
        (λ (l : List TimerEntry).
          remaining s' t' l ≡ written s t ns (λ a b. remaining a b (e ∷ es)) s' t')
        same (ground arith)
  | inr other ↦ elim (Option-cases (reset s t ns es)) [
    | inl missing ↦ absurd (ground arith)
    | inr (rest, found) ↦
        let same : e ∷ rest ≡ es' = ground arith in
        subst
          (λ (l : List TimerEntry).
            remaining s' t' l ≡ written s t ns (λ a b. remaining a b (e ∷ es)) s' t')
          same (ground (arith, reset_lem s t ns s' t' es found))
  ]
]

reset_missing :
    (s t ns : ℕ) (es : List TimerEntry) → reset s t ns es ≡ none → remaining s t es ≡ none
unfolding reset
reset_missing s t ns [] h = refl
reset_missing s t ns (e ∷ es) h = elim (Bool-cases (is_key s t e)) [
  | inl key ↦ absurd (ground arith)
  | inr other ↦ elim (Option-cases (reset s t ns es)) [
    | inl missing ↦ ground (arith, reset_missing s t ns es missing)
    | inr (rest, found) ↦ absurd (ground arith)
  ]
]

remaining-append :
    (s t s' t' ns : ℕ) (es : List TimerEntry)
    → remaining s t es ≡ none
    → remaining s' t' (es ++ record { state = s; trigger = t; remaining_ns = ns } ∷ [])
      ≡ written s t ns (λ a b. remaining a b es) s' t'
remaining-append s t s' t' ns [] h = ground arith
remaining-append s t s' t' ns (e ∷ es) h =
    ground (arith, remaining-append s t s' t' ns es (ground arith))

count_down_lem :
    (s t elapsed : ℕ) (es : List TimerEntry)
    → remaining s t (map (count_down elapsed) es) ≡ Option.map (λ r. r - elapsed) (remaining s t es)
count_down_lem s t elapsed [] = refl
count_down_lem s t elapsed (e ∷ es) = ground (arith, count_down_lem s t elapsed es)

reset_found :
    (s t ns : ℕ) (es : List TimerEntry) {es' : List TimerEntry}
    → reset s t ns es ≡ some es'
    → remaining s t es ≢ none
unfolding reset
reset_found s t ns [] h n = cc
reset_found s t ns (e ∷ es) h n = elim (Bool-cases (is_key s t e)) [
  | inl key ↦ ground arith
  | inr other ↦ elim (Option-cases (reset s t ns es)) [
    | inl missing ↦ absurd (ground arith)
    | inr (rest, found) ↦ reset_found s t ns es found (ground arith)
  ]
]

module _ (vec : HeaplessVec TimerEntry) (room s t d : ℕ) (es : List TimerEntry) where
  start_push :
      (s' t' : ℕ)
      → reset s t (as_u64 d) es ≡ none
      → length es < room
      → remaining s' t' (start vec room s t d es)
        ≡ written s t (as_u64 d) (λ a b. remaining a b es) s' t'
  unfolding start
  start_push s' t' missing free =
      rw (missing, start)
        (rw (vec.push_room room es _ free)
          (remaining-append s t s' t' (as_u64 d) es (reset_missing s t (as_u64 d) es missing)))

  start_full : reset s t (as_u64 d) es ≡ none → room ≤ length es → start vec room s t d es ≡ es
  unfolding start
  start_full missing full = rw (missing, start) (rw (vec.push_full room es _ full))

  -- `start` on a table that holds the key or has room writes the nanoseconds of the duration, modulo
  -- 2 ^ 64, under the key and changes no other. On a full table without the key it changes nothing: the
  -- timer is not started.
  pub start_lem :
      ((remaining s t es ≢ none) ⊎ (length es < room)
        → (s' t' : ℕ)
        → remaining s' t' (start vec room s t d es)
          ≡ written s t (as_u64 d) (λ a b. remaining a b es) s' t')
      × ((remaining s t es ≡ none) → room ≤ length es → start vec room s t d es ≡ es)
  unfolding start
  start_lem = elim (Option-cases (reset s t (as_u64 d) es)) [
    | inr (es', found) ↦
        let ran : start vec room s t d es ≡ es' = rw (found, start) refl in
        (
          (λ ok s' t'.
              subst
                (λ (l : List TimerEntry).
                  remaining s' t' l ≡ written s t (as_u64 d) (λ a b. remaining a b es) s' t')
                (sym ran) (reset_lem s t (as_u64 d) s' t' es found)),
          λ gone full. absurd (reset_found s t (as_u64 d) es found gone),
        )
    | inl missing ↦ (
      (λ ok s' t'. elim ok [
        | inl held ↦ absurd (held (reset_missing s t (as_u64 d) es missing))
        | inr free ↦ start_push s' t' missing free
      ]),
      λ gone full. start_full missing full,
    )
  ]

-- `decrement` takes the elapsed nanoseconds, modulo 2 ^ 64, from every entry, and stops at 0.
pub decrement_lem :
    (s t elapsed : ℕ) (es : List TimerEntry)
    → remaining s t (decrement elapsed es) ≡ Option.map (λ r. r - as_u64 elapsed) (remaining s t es)
unfolding decrement
decrement_lem s t elapsed [] = refl
decrement_lem s t elapsed (e ∷ es) = count_down_lem s t (as_u64 elapsed) (e ∷ es)

cancel_lem :
    (vec : HeaplessVec TimerEntry) (s s' t' : ℕ) (es : List TimerEntry)
    → remaining s' t' (vec.retain (λ e. not (e.state == s)) es)
      ≡ (if s' == s then none else remaining s' t' es)
cancel_lem vec s s' t' [] = rw (vec.retain_nil (λ e. not (e.state == s))) (ground arith)
cancel_lem vec s s' t' (e ∷ es) =
    let below = cancel_lem vec s s' t' es in
    rw (vec.retain_cons (λ e. not (e.state == s)) e es) (
      if_cases (not (e.state == s))
        (λ (l : List TimerEntry).
          remaining s' t' l ≡ (if s' == s then none else remaining s' t' (e ∷ es)))
        _ _ (λ other. ground (arith, below)) (λ same. ground (arith, below)))

-- `cancel_state` removes the keys of the state and changes no other.
pub cancel_state_lem :
    (vec : HeaplessVec TimerEntry) (s s' t' : ℕ) (es : List TimerEntry)
    → remaining s' t' (cancel_state vec s es) ≡ (if s' == s then none else remaining s' t' es)
unfolding cancel_state
cancel_state_lem vec s s' t' [] = ground arith
cancel_state_lem vec s s' t' (e ∷ es) = cancel_lem vec s s' t' (e ∷ es)

pub lt_of_ltb : (a b : ℕ) → ltb a b ≡ true → a < b
lt_of_ltb a b h = ground arith

pub le_of_ltb : (a b : ℕ) → ltb a b ≡ false → b ≤ a
le_of_ltb a b h = ground arith

-- `d` is `least` or the time left of an entry, and nothing is less.
abbrev pub IsLeast : ℕ → List TimerEntry → ℕ → Type 0
IsLeast least es d =
    (d ≤ least)
    × All (λ x. d ≤ x.remaining_ns) es
    × ((d ≡ least) ⊎ (i : ℕ) × (x : TimerEntry) × (get_elem? es i ≡ some x) × (d ≡ x.remaining_ns))

min_ns_lem : (least : ℕ) (es : List TimerEntry) → IsLeast least es (min_ns least es)
min_ns_lem least [] = (omega arith, tt, inl refl)
min_ns_lem least (e ∷ es) =
    let (le, all, hit) = min_ns_lem e.remaining_ns es in
    let (le', all', hit') = min_ns_lem least es in
    if_cases (ltb e.remaining_ns least) (λ start. IsLeast least (e ∷ es) (min_ns start es)) _ _
      (λ lower. (
        omega (arith, le, lt_of_ltb e.remaining_ns least lower),
        (le, all),
        elim hit [
          | inl here ↦ inr (0, e, refl, here)
          | inr (i, x, at, eq) ↦ inr (suc i, x, at, eq)
        ],
      ))
      (λ higher. (
        le',
        (omega (arith, le', le_of_ltb e.remaining_ns least higher), all'),
        elim hit' [ inl here ↦ inl here | inr (i, x, at, eq) ↦ inr (suc i, x, at, eq) ],
      ))

-- `min_remaining` of a table that has an entry is the time left of one of its entries, and no entry has
-- less.
pub min_remaining_lem :
    (e : TimerEntry) (es : List TimerEntry)
    → (d : ℕ) × (min_remaining (e ∷ es) ≡ some d)
      × All (λ x. d ≤ x.remaining_ns) (e ∷ es)
      × ((i : ℕ) × (x : TimerEntry) × (get_elem? (e ∷ es) i ≡ some x) × (d ≡ x.remaining_ns))
unfolding min_remaining
min_remaining_lem e es =
    let (le, all, hit) = min_ns_lem e.remaining_ns es in
    (
      min_ns e.remaining_ns es,
      refl,
      (le, all),
      elim hit [ inl here ↦ (0, e, refl, here) | inr (i, x, at, eq) ↦ (suc i, x, at, eq) ],
    )
