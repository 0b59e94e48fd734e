-- ===== src/Codegen/Dispatch/Nearest.antt =====
-- `compute_event_dispatch` of hsmc-macros/src/codegen.rs against the active path of a state.
use hsmc.Codegen.Dispatch.{
  aggregate, sort_handlers, Slot, Entry, StateHandlers, get, per_state, bubble, entry_of, fill,
  compute_event_dispatch,
}
use hsmc.Codegen.Tables.{row, rows}
use hsmc.Codegen.Tables.Lookup.{rows-at}
use hsmc.Codegen.Walks.Tree.{IsTree, chain, chain-root, chain-step}
use hsmc.Ir.{Ir, StateIr, as_u16, parent_of, depth_of}
use hsmc.Prelude.{
  All, All-append, ◌⊎◌, ℕ, zero, suc, ◌+◌, ◌*◌, ◌<◌, ◌≤◌, ◌≡◌, ◌∙◌, sym, ap, subst, refl, ◌>>=◌,
  >>=-eq-some, inl, inr, Option, none, some, Option-cases, some_case, none_case, bind_case, List,
  [], ◌∷◌, length, get_elem?, get_elem?-some, arith,
}

-- The handlers of an event in a state.
abbrev pub handled : List StateIr → ℕ → ℕ → Option Slot
handled states ev s = per_state states s >>= get ev

-- The first state of a path that handles an event.
abbrev pub first_handled : List StateIr → ℕ → List ℕ → Option (ℕ × Slot)
first_handled states ev [] = none
first_handled states ev (s ∷ path) = elim (handled states ev s) [
  | none ↦ first_handled states ev path
  | some slot ↦ some (s, slot)
]

module _ (states : List StateIr)
    (tree : IsTree (length states) (parent_of states) (depth_of states)) where
  per_state-some :
      (s : ℕ) → s < length states → (hs : StateHandlers) × (per_state states s ≡ some hs)
  unfolding per_state
  per_state-some s h =
      let (st, e) = get_elem?-some states s h in
      (aggregate (sort_handlers st.handlers) [], rw (e, per_state) refl)

  first_handled-here :
      (ev s : ℕ) (rest : List ℕ) {hs : StateHandlers} {slot : Slot}
      → per_state states s ≡ some hs
      → get ev hs ≡ some slot
      → first_handled states ev (s ∷ rest) ≡ some (s, slot)
  first_handled-here ev s rest {hs} {slot} e g =
      let h : handled states ev s ≡ some slot = rw e g in
      some_case (handled states ev s) (λ o. o ≡ some (s, slot)) _ _ slot h refl

  first_handled-later :
      (ev s : ℕ) (rest : List ℕ) {hs : StateHandlers}
      → per_state states s ≡ some hs
      → get ev hs ≡ none
      → first_handled states ev (s ∷ rest) ≡ first_handled states ev rest
  first_handled-later ev s rest {hs} e g =
      let h : handled states ev s ≡ none = rw e g in
      none_case (handled states ev s) (λ o. o ≡ first_handled states ev rest) _ _ h refl

  chain-tail :
      (s : ℕ)
      → (rest : List ℕ) × (chain (parent_of states) s ≡ s ∷ rest)
        × ((parent_of states s ≡ none) × (rest ≡ [])
            ⊎ (p : ℕ) × (parent_of states s ≡ some p) × (rest ≡ chain (parent_of states) p))
  chain-tail s = elim (Option-cases (parent_of states s)) [
    | inl e ↦ ([], chain-root tree s e, inl (e, refl))
    | inr (p, e) ↦ (chain (parent_of states) p, chain-step tree s p e, inr (p, e, refl))
  ]

  bubble_lem :
      (ev fuel s : ℕ)
      → s + 1 < fuel
      → s < length states
      → bubble states ev fuel (some s) ≡ some (first_handled states ev (chain (parent_of states) s))
  unfolding bubble
  bubble_lem ev zero s h b = elim h [ ]
  bubble_lem ev (suc zero) s h b = absurd (omega arith)
  bubble_lem ev (suc (suc fuel)) s h b =
      let (hs, e) = per_state-some s b in
      let (rest, path, next) = chain-tail s in
      let P = λ (o : Option (Option (ℕ × Slot))).
        o ≡ some (first_handled states ev (chain (parent_of states) s)) in
      some_case (per_state states s) P _ _ hs e (elim (Option-cases (get ev hs)) [
        | inr (slot, g) ↦
            some_case (get ev hs) P _ _ slot g
              (rw path (ap some (sym (first_handled-here ev s rest e g))))
        | inl g ↦ none_case (get ev hs) P _ _ g (elim next [
          | inl (root, last) ↦
              rw (root, path, last) (ap some (sym (first_handled-later ev s [] e g)))
          | inr (p, up, more) ↦
              rw (up, path, more)
                (bubble_lem ev (suc fuel) p (omega (arith, tree.smaller s p up))
                    (omega (arith, tree.smaller s p up))
                  ∙ ap some (sym (first_handled-later ev s (chain (parent_of states) p) e g)))
        ])
      ])

  -- The entries of a list of pairs.
  fill-at :
      (pairs : List (ℕ × ℕ)) {out : List Entry} (i s ev : ℕ)
      → fill states pairs ≡ some out
      → get_elem? pairs i ≡ some (s, ev)
      → (r : Option (ℕ × Slot)) × (bubble states ev (length states + 1) (some (as_u16 s)) ≡ some r)
        × (get_elem? out i ≡ some (entry_of r))
  unfolding fill
  fill-at [] i s ev h at = cc
  fill-at ((s', ev') ∷ rest) {out} zero s ev h at =
      let (r, one, more) =
        >>=-eq-some (bubble states ev' (length states + 1) (some (as_u16 s'))) _ h in
      let (tail, all, made) = >>=-eq-some (fill states rest) _ more in
      let whole : entry_of r ∷ tail ≡ out = cc in
      let same_s : s' ≡ s = cc in
      let same_ev : ev' ≡ ev = cc in
      (
        r,
        rw (← same_s, ← same_ev) one,
        subst (λ (l : List Entry). get_elem? l 0 ≡ some (entry_of r)) whole refl,
      )
  fill-at ((s', ev') ∷ rest) {out} (suc i) s ev h at =
      let (r, one, more) =
        >>=-eq-some (bubble states ev' (length states + 1) (some (as_u16 s'))) _ h in
      let (tail, all, made) = >>=-eq-some (fill states rest) _ more in
      let whole : entry_of r ∷ tail ≡ out = cc in
      let (r', one', found) = fill-at rest i s ev all at in
      (r', one', subst (λ (l : List Entry). get_elem? l (suc i) ≡ some (entry_of r')) whole found)

  -- A list of pairs whose states are in range is filled.
  fill-some :
      (pairs : List (ℕ × ℕ))
      → length states < 65536
      → All (λ (q : ℕ × ℕ). q.0 < length states) pairs
      → (out : List Entry) × (fill states pairs ≡ some out)
  unfolding fill
  fill-some [] few h = ([], refl)
  fill-some ((s, ev) ∷ rest) few h =
      let same : as_u16 s ≡ s = omega (arith, h.0) in
      let found = first_handled states ev (chain (parent_of states) s) in
      let walked : bubble states ev (length states + 1) (some (as_u16 s)) ≡ some found =
        rw same (bubble_lem ev (length states + 1) s (omega (arith, h.0)) h.0) in
      let (out, e) = fill-some rest few h.1 in
      let P = λ (o : Option (List Entry)). o ≡ some (entry_of found ∷ out) in
      (
        entry_of found ∷ out,
        bind_case (bubble states ev (length states + 1) (some (as_u16 s))) P _ found walked
            (bind_case (fill states rest) P _ out e refl),
      )

row-All : (n k from to : ℕ) → from < n → All (λ (q : ℕ × ℕ). q.0 < n) (row k from to)
unfolding row
row-All n zero from to h = tt
row-All n (suc k) from to h = (h, row-All n k from (to + 1) h)

rows-All : (n k left from : ℕ) → from + left ≤ n → All (λ (q : ℕ × ℕ). q.0 < n) (rows k left from)
unfolding rows
rows-All n k zero from h = tt
rows-All n k (suc left) from h =
    All-append (λ (q : ℕ × ℕ). q.0 < n) (row k from 0) (rows k left (from + 1))
      (row-All n k from 0 (omega arith)) (rows-All n k left (from + 1) (omega arith))

module _ (ir : Ir) (tree : IsTree (length ir.states) (parent_of ir.states) (depth_of ir.states))
    (few_states : length ir.states < 65536) (few_events : length ir.event_variants < 65536) where
  entry-at :
      {out : List Entry} (s ev : ℕ)
      → compute_event_dispatch ir ≡ some out
      → s < length ir.states
      → ev < length ir.event_variants
      → get_elem? out (s * length ir.event_variants + ev)
        ≡ some (entry_of (first_handled ir.states ev (chain (parent_of ir.states) s)))
  unfolding compute_event_dispatch
  entry-at {out} s ev h hs hev =
      let n = length ir.states in
      let k = length ir.event_variants in
      let same : as_u16 k ≡ k = omega arith in
      let same_s : as_u16 s ≡ s = omega arith in
      let at : get_elem? (rows (as_u16 k) n 0) (s * k + ev) ≡ some (s, ev) =
        rw same (rows-at k n 0 s ev hs hev ∙ ap (λ (x : ℕ). some (x, ev)) (omega arith)) in
      let (r, one, found) = fill-at ir.states tree (rows (as_u16 k) n 0) (s * k + ev) s ev h at in
      let walked = bubble_lem ir.states tree ev (n + 1) s (omega arith) hs in
      let answer : r ≡ first_handled ir.states ev (chain (parent_of ir.states) s) =
        cc (ap (λ x. bubble ir.states ev (n + 1) (some x)) same_s) in
      found ∙ ap (λ x. some (entry_of x)) answer

  -- For a tree of fewer than 65536 states and fewer than 65536 events, the table is built. Its entry at
  -- `s * n_events + ev` is that of the first state on the active path of `s` that handles the event,
  -- innermost first, and the sentinel where none does.
  pub dispatch_lem :
      (out : List Entry) × (compute_event_dispatch ir ≡ some out)
      × ((s ev : ℕ)
          → s < length ir.states
          → ev < length ir.event_variants
          → get_elem? out (s * length ir.event_variants + ev)
            ≡ some (entry_of (first_handled ir.states ev (chain (parent_of ir.states) s))))
  unfolding compute_event_dispatch
  dispatch_lem =
      let n = length ir.states in
      let k = length ir.event_variants in
      let (out, e) =
        fill-some ir.states tree (rows (as_u16 k) n 0) few_states
          (rows-All n (as_u16 k) n 0 (omega arith)) in
      (out, e, λ s ev hs hev. entry-at s ev e hs hev)
