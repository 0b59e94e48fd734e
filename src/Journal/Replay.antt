-- ===== src/Journal/Replay.antt =====
-- What a journal (hsmc/src/journal.rs) must look like: replayed over the active path, innermost state
-- first, each state is entered under its parent and left from the innermost position.
use hsmc.Journal.{
  TraceEvent, enter_began, entered, exit_began, exited, transition_fired, event_delivered,
  timer_fired, terminated,
}
use hsmc.Prelude.{
  ℕ, Option, List, Bool, ◌∷◌, false, none, some, ◌≡◌, ◌⊎◌, ◌==◌, true, ◌>>=◌, ◌++◌, [], ◌||◌,
  >>=-eq-some, ≡→==, inl, arith, refl, inr,
}

-- `x` stands in the list.
abbrev pub In : ℕ → List ℕ → Type 0
In x [] = ⊥
In x (y ∷ ys) = (x ≡ y) ⊎ In x ys

abbrev pub contains : ℕ → List ℕ → Bool
contains x [] = false
contains x (y ∷ ys) = x == y || contains x ys

abbrev pub same_option : Option ℕ → Option ℕ → Bool
same_option none none = true
same_option none (some y) = false
same_option (some x) none = false
same_option (some x) (some y) = x == y

abbrev pub head? : List ℕ → Option ℕ
head? [] = none
head? (x ∷ xs) = some x

abbrev pub check : Bool → List ℕ → Option (List ℕ)
check true path = some path
check false path = none

abbrev pub pop : ℕ → List ℕ → Option (List ℕ)
pop s [] = none
pop s (x ∷ xs) = check (x == s) xs

module _ (parent : ℕ → Option ℕ) where
  -- One event of the journal. `none` is a journal that no run produces.
  abbrev pub trace_step : List ℕ → TraceEvent → Option (List ℕ)
  trace_step path (enter_began s) = check (same_option (parent s) (head? path)) path
  trace_step path (entered s) = check (same_option (parent s) (head? path)) (s ∷ path)
  trace_step path (exit_began s) = check (same_option (some s) (head? path)) path
  trace_step path (exited s) = pop s path
  trace_step path (transition_fired from to reason) = check (same_option from (head? path)) path
  trace_step path (event_delivered s ev) = check (contains s path) path
  trace_step path (timer_fired s tid) = check (contains s path) path
  trace_step path terminated = check (same_option (head? path) none) path
  trace_step path _ = some path

  unfoldable pub replay : List ℕ → List TraceEvent → Option (List ℕ)
  replay path [] = some path
  replay path (e ∷ es) = trace_step path e >>= λ path'. replay path' es

  pub replay-append :
      (p : List ℕ) {q : List ℕ} (xs ys : List TraceEvent)
      → replay p xs ≡ some q
      → replay p (xs ++ ys) ≡ replay q ys
  unfolding replay
  replay-append p {q} [] ys h = let same : p ≡ q = cc in rw same
  replay-append p (x ∷ xs) ys h =
      let (p', e, h') = >>=-eq-some (trace_step p x) _ h in
      rw (e, replay) (replay-append p' xs ys h')

pub same_option_refl : (o : Option ℕ) → same_option o o ≡ true
same_option_refl none = refl
same_option_refl (some x) = ≡→== x x refl

pub In→contains : (x : ℕ) (xs : List ℕ) → In x xs → contains x xs ≡ true
In→contains x [] h = absurd h
In→contains x (y ∷ ys) (inl e) = ground arith
In→contains x (y ∷ ys) (inr h) = ground (arith, In→contains x ys h)
