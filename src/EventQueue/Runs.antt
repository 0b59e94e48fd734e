-- ===== src/EventQueue/Runs.antt =====
-- Any sequence of calls on `EventQueue` of hsmc/src/lib.rs.
use hsmc.EventQueue.{push, pop, pop-first, pop-empty, push-room, push-full}
use hsmc.Heapless.{Deque}
use hsmc.Journal.{Reply, ok, err}
use hsmc.Prelude.{
  ℕ, ◌≤◌, ◌≡◌, ◌∙◌, ap, sym, subst, refl, inl, inr, Bool-cases, ltb, Option, none, some, List, [],
  ◌∷◌, ◌++◌, append_assoc, append-nil, length, length-append, All, arith,
}

pub data QueueCall (E : Type 0) : Type 0 where
  push_call : E → QueueCall E
  pop_call : QueueCall E

-- The events that were taken in and given out, what is left, and how many events the queue held at each
-- push that was refused and at each pop that gave none.
pub record History (E : Type 0) : Type 0 where
  pub accepted : List E
  pub popped : List E
  pub left : List E
  pub refused_at : List ℕ
  pub none_at : List ℕ

abbrev pub note_push : {E : Type 0} → E → ℕ → Reply → History E → History E
note_push ev n ok h = record h { accepted = ev ∷ h.accepted }
note_push ev n (err e) h = record h { refused_at = n ∷ h.refused_at }

abbrev pub note_pop : {E : Type 0} → ℕ → Option E → History E → History E
note_pop n none h = record h { none_at = n ∷ h.none_at }
note_pop n (some ev) h = record h { popped = ev ∷ h.popped }

-- First in, first out, within the capacity; a push is refused by a full queue only, and a pop gives none
-- on an empty queue only.
pub record IsFifo {E : Type 0} (cap : ℕ) (xs : List E) (h : History E) : Type 0 where
  pub in_order : xs ++ h.accepted ≡ h.popped ++ h.left
  pub bounded : length h.left ≤ cap
  pub full : All (λ n. cap ≤ n) h.refused_at
  pub empty : All (λ n. n ≡ 0) h.none_at

module _ {E : Type 0} (deque : Deque E) (cap : ℕ) where
  abbrev pub run : List (QueueCall E) → List E → History E
  run [] xs = record { accepted = []; popped = []; left = xs; refused_at = []; none_at = [] }
  run (push_call ev ∷ rest) xs =
      let r = push deque cap xs ev in note_push ev (length xs) r.1 (run rest r.0)
  run (pop_call ∷ rest) xs = let r = pop deque xs in note_pop (length xs) r.0 (run rest r.1)

  -- Any calls on a queue within its capacity: what it held and the events that it accepts are those that it gives out and those
  -- that are left, in order. It stays within its capacity, refuses an event only when it is full,
  -- and gives none only when it is empty.
  pub run-IsFifo :
      (calls : List (QueueCall E)) (xs : List E) → length xs ≤ cap → IsFifo cap xs (run calls xs)
  run-IsFifo [] xs within = record {
    in_order = append-nil xs;
    bounded = within;
    full = tt;
    empty = tt;
  }
  run-IsFifo (push_call ev ∷ rest) xs within =
      let P = λ (r : List E × Reply). IsFifo cap xs (note_push ev (length xs) r.1 (run rest r.0)) in
      elim (Bool-cases (ltb (length xs) cap)) [
        | inl room ↦
            let ih = run-IsFifo rest (xs ++ ev ∷ []) (ground (arith, length-append xs (ev ∷ []))) in
            subst P (sym (push-room deque cap xs ev (ground arith))) (record {
              in_order =
                  sym (append_assoc xs (ev ∷ []) (run rest (xs ++ ev ∷ [])).accepted) ∙ ih.in_order;
              bounded = ih.bounded;
              full = ih.full;
              empty = ih.empty;
            })
        | inr none_free ↦
            let ih = run-IsFifo rest xs within in
            let held : cap ≤ length xs = ground arith in
            subst P (sym (push-full deque cap xs ev held)) (record {
              in_order = ih.in_order;
              bounded = ih.bounded;
              full = (held, ih.full);
              empty = ih.empty;
            })
      ]
  run-IsFifo (pop_call ∷ rest) [] within =
      let P = λ (r : Option E × List E). IsFifo cap [] (note_pop 0 r.0 (run rest r.1)) in
      let ih = run-IsFifo rest [] within in
      subst P (sym (pop-empty deque)) (record {
        in_order = ih.in_order;
        bounded = ih.bounded;
        full = ih.full;
        empty = (refl, ih.empty);
      })
  run-IsFifo (pop_call ∷ rest) (x ∷ xs) within =
      let P = λ (r : Option E × List E).
        IsFifo cap (x ∷ xs) (note_pop (length (x ∷ xs)) r.0 (run rest r.1)) in
      let ih = run-IsFifo rest xs (omega arith) in
      subst P (sym (pop-first deque x xs)) (record {
        in_order = ap (λ l. x ∷ l) ih.in_order;
        bounded = ih.bounded;
        full = ih.full;
        empty = ih.empty;
      })
