-- ===== src/Timers/Owners.antt =====
-- Which states own the entries of a `TimerTable` (hsmc/src/lib.rs) after each of its operations.
use hsmc.Heapless.{HeaplessVec}
use hsmc.Timers.{
  TimerEntry, reset, is_key, as_u64, scan, start, cancel_state, decrement, count_down, pop_expired,
}
use hsmc.Prelude.{
  ℕ, List, All, ◌≡◌, ◌∷◌, Option-cases, ◌≢◌, get_elem?, some, map, inr, not, Bool-cases, inl, ◌==◌,
  [], arith, ltb, subst, length, All-append, if_cases, Option, ◌<◌, none, ◌+◌, ◌≤◌, get_elem?-some,
  All-get_elem?, set, init, refl, last_or, All-set, All-last_or, All-init,
}

-- The owner of every entry satisfies `Q`.
abbrev pub Owners {ℓ} : (ℕ → Type ℓ) → List TimerEntry → Type ℓ
Owners Q = All (λ e. Q e.state)

module _ {ℓ} (Q : ℕ → Type ℓ) where
  reset-Owners :
      (s t ns : ℕ) (es : List TimerEntry) {es' : List TimerEntry}
      → reset s t ns es ≡ some es'
      → Owners Q es
      → Owners Q es'
  unfolding reset
  reset-Owners s t ns [] h o = cc
  reset-Owners s t ns (e ∷ es) {es'} h o = elim (Bool-cases (is_key s t e)) [
    | inl key ↦
        let same : record e { remaining_ns = ns } ∷ es ≡ es' = ground arith in
        subst (Owners Q) same (o.0, o.1)
    | inr other ↦ elim (Option-cases (reset s t ns es)) [
      | inl none_here ↦ absurd (ground arith)
      | inr (rest, found) ↦
          let same : e ∷ rest ≡ es' = ground arith in
          subst (Owners Q) same (o.0, reset-Owners s t ns es found o.1)
    ]
  ]

  count_down-Owners :
      (ns : ℕ) (es : List TimerEntry) → Owners Q es → Owners Q (map (count_down ns) es)
  count_down-Owners ns [] o = tt
  count_down-Owners ns (e ∷ es) o = (o.0, count_down-Owners ns es o.1)

  pub decrement-Owners :
      (elapsed : ℕ) (es : List TimerEntry) → Owners Q es → Owners Q (decrement elapsed es)
  unfolding decrement
  decrement-Owners elapsed [] o = tt
  decrement-Owners elapsed (e ∷ es) o = count_down-Owners (as_u64 elapsed) (e ∷ es) o

  module _ (vec : HeaplessVec TimerEntry) where
    -- Every entry after `start` is of a state that owned one, or of the state that starts it.
    pub start-Owners :
        (room s t d : ℕ) (es : List TimerEntry)
        → Q s
        → Owners Q es
        → Owners Q (start vec room s t d es)
    unfolding start
    start-Owners room s t d es q o = elim (Option-cases (reset s t (as_u64 d) es)) [
      | inr (es', found) ↦ rw (found, start) (reset-Owners s t (as_u64 d) es found o)
      | inl missing ↦ elim (Bool-cases (ltb (length es) room)) [
        | inl free ↦
            rw (missing, start)
              (rw (vec.push_room room es _ (ground arith))
                (All-append (λ (e : TimerEntry). Q e.state) es _ o (q, tt)))
        | inr full ↦ rw (missing, start) (rw (vec.push_full room es _ (ground arith)) o)
      ]
    ]

    retain-Owners :
        (s : ℕ) (es : List TimerEntry)
        → Owners Q es
        → Owners (λ x. Q x × (x ≢ s)) (vec.retain (λ e. not (e.state == s)) es)
    retain-Owners s [] o = rw (vec.retain_nil (λ e. not (e.state == s))) tt
    retain-Owners s (e ∷ es) o = rw (vec.retain_cons (λ e. not (e.state == s)) e es) (
        if_cases (not (e.state == s)) (Owners (λ x. Q x × (x ≢ s))) _ _
          (λ other. ((o.0, ground arith), retain-Owners s es o.1)) (λ same. retain-Owners s es o.1))

    -- Every entry left by `cancel_state` was there for its owner before, and is of another state.
    pub cancel_state-Owners :
        (s : ℕ) (es : List TimerEntry)
        → Owners Q es
        → Owners (λ x. Q x × (x ≢ s)) (cancel_state vec s es)
    unfolding cancel_state
    cancel_state-Owners s [] o = tt
    cancel_state-Owners s (e ∷ es) o = retain-Owners s (e ∷ es) o

-- The depth table covers a state.
abbrev pub Covered : List ℕ → ℕ → Type 0
Covered depth s = (d : ℕ) × (get_elem? depth s ≡ some d)

abbrev InRange : ℕ → Option ℕ → Type 0
InRange n none = Unit
InRange n (some i) = i < n

module _ (depth : List ℕ) (all : List TimerEntry) (covered : Owners (Covered depth) all) where
  -- The search stays in the bounds of both arrays.
  scan_total :
      (es : List TimerEntry) (i : ℕ) (best : Option ℕ)
      → Owners (Covered depth) es
      → i + length es ≤ length all
      → InRange (length all) best
      → (best' : Option ℕ) × (scan depth all es i best ≡ some best') × InRange (length all) best'
  unfolding scan
  scan_total [] i best o fits b = (best, refl, b)
  scan_total (e ∷ es) i none o fits b =
      let (b1, s1, r1) = scan_total es (i + 1) none o.1 (omega arith) tt in
      let (b2, s2, r2) = scan_total es (i + 1) (some i) o.1 (omega arith) (omega arith) in
      elim (Bool-cases (e.remaining_ns == 0)) [
        | inl hit ↦ (b2, rw (hit, scan) s2, r2)
        | inr miss ↦ (b1, rw (miss, scan) s1, r1)
      ]
  scan_total (e ∷ es) i (some bi) o fits b =
      let (b1, s1, r1) = scan_total es (i + 1) (some bi) o.1 (omega arith) b in
      let (b2, s2, r2) = scan_total es (i + 1) (some i) o.1 (omega arith) (omega arith) in
      let (cur, here_depth) = o.0 in
      let (old, at) = get_elem?-some all bi b in
      let (prev, old_depth) =
        All-get_elem? (λ (x : TimerEntry). Covered depth x.state) all bi old covered at in
      elim (Bool-cases (e.remaining_ns == 0)) [
        | inr miss ↦ (b1, rw (miss, scan) s1, r1)
        | inl hit ↦ elim (Bool-cases (ltb prev cur)) [
          | inl deeper ↦ (b2, rw (hit, here_depth, at, old_depth, deeper, scan) s2, r2)
          | inr not_deeper ↦ (b1, rw (hit, here_depth, at, old_depth, not_deeper, scan) s1, r1)
        ]
      ]

abbrev pub FiredIn {ℓ} : (ℕ → Type ℓ) → Option (ℕ × ℕ) → Type ℓ
FiredIn Q none = Unit
FiredIn Q (some (s, t)) = Q s

-- On a table whose owners the depth table covers, `pop_expired` stays in the bounds of both and
-- returns; whatever holds of the owners before it holds of the fired entry's and of those left.
pub pop_expired-Owners {ℓ} :
    (Q : ℕ → Type ℓ) (vec : HeaplessVec TimerEntry) (depth : List ℕ) (es : List TimerEntry)
    → Owners (Covered depth) es
    → Owners Q es
    → (fired : Option (ℕ × ℕ)) × (es' : List TimerEntry) × (pop_expired vec depth es
        ≡ some (fired, es'))
      × FiredIn Q fired
      × Owners Q es'
unfolding pop_expired
pop_expired-Owners Q vec depth es covered o =
    let (best, found, range) = scan_total depth es covered es 0 none covered (omega arith) tt in
    popped best found range
  where
    popped :
        (best : Option ℕ)
        → scan depth es es 0 none ≡ some best
        → InRange (length es) best
        → (fired : Option (ℕ × ℕ)) × (es' : List TimerEntry) × (pop_expired vec depth es
            ≡ some (fired, es'))
          × FiredIn Q fired
          × Owners Q es'
    popped none found range = (none, es, rw (found, pop_expired), tt, o)
    popped (some i) found range =
        let (e, at) = get_elem?-some es i range in
        (
          some (e.state, e.trigger),
          set (init es) i (last_or e es),
          rw (found, pop_expired) (rw (vec.swap_removed es i e at)),
          All-get_elem? (λ (x : TimerEntry). Q x.state) es i e o at,
          All-set (λ (x : TimerEntry). Q x.state) (init es) i (last_or e es)
              (All-last_or (λ (x : TimerEntry). Q x.state) e es
                (All-get_elem? (λ (x : TimerEntry). Q x.state) es i e o at) o)
              (All-init (λ (x : TimerEntry). Q x.state) es o),
        )
