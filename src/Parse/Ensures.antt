-- ===== src/Parse/Ensures.antt =====
-- What a parser of hsmc-macros/src/parse.rs makes sure of: it is not out of fuel, and what it reads has a
-- property.
use hsmc.Parse.Filling.{require}
use hsmc.Prelude.{◌≡◌, ◌≢◌, refl, subst, Bool, true, false, Option, none, some, if◌then◌else◌}
use hsmc.Refusal.{Refusal, Result, accepted, refused, out_of_fuel, ◌>>=◌}

pub data Ensures {A : Type 0} (P : A → Type 0) : Result A → Type 0 where
  holds : {a : A} → P a → Ensures P (accepted a)
  fails : {e : Refusal} → e ≢ out_of_fuel → Ensures P (refused e)

module _ {A B : Type 0} {P : A → Type 0} {Q : B → Type 0} where
  pub Ensures-bind :
      {m : Result A} {f : A → Result B}
      → Ensures P m
      → ((a : A) → P a → Ensures Q (f a))
      → Ensures Q (m >>= f)
  Ensures-bind (holds p) k = k _ p
  Ensures-bind (fails e) k = fails e

module _ {A : Type 0} {P : A → Type 0} where
  pub Ensures-require : (o : Option A) → ((a : A) → o ≡ some a → P a) → Ensures P (require o)
  Ensures-require none k = fails (λ h. cc)
  Ensures-require (some a) k = holds (k a refl)

  pub Ensures-if :
      {x y : Result A} (b : Bool)
      → (b ≡ true → Ensures P x)
      → (b ≡ false → Ensures P y)
      → Ensures P (if b then x else y)
  Ensures-if true h k = h refl
  Ensures-if false h k = k refl

  pub Ensures-elim :
      {x y : Result A} (b : Bool)
      → (b ≡ true → Ensures P x)
      → (b ≡ false → Ensures P y)
      → Ensures P (elim b [ true ↦ x | false ↦ y ])
  Ensures-elim true h k = h refl
  Ensures-elim false h k = k refl

  pub Ensures-option :
      {B : Type 0} {n : Result A} {f : B → Result A} (o : Option B)
      → (o ≡ none → Ensures P n)
      → ((b : B) → o ≡ some b → Ensures P (f b))
      → Ensures P (elim o [ none ↦ n | some b ↦ f b ])
  Ensures-option none h k = h refl
  Ensures-option (some b) h k = k b refl

  pub Ensures-map :
      {Q : A → Type 0} {m : Result A} → Ensures P m → ((a : A) → P a → Q a) → Ensures Q m
  Ensures-map (holds p) k = holds (k _ p)
  Ensures-map (fails e) k = fails e

  -- What is accepted has the property, and the fuel was enough.
  pub Ensures-accepted : {a : A} {m : Result A} → Ensures P m → m ≡ accepted a → P a
  Ensures-accepted {a} (holds {a = x} p) h = let same : x ≡ a = cc in subst P same p
  Ensures-accepted (fails e) h = cc

  pub Ensures-ne : {m : Result A} → Ensures P m → m ≢ refused out_of_fuel
  Ensures-ne (holds p) h = cc
  Ensures-ne (fails e) h = e (cc)
