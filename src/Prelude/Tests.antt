-- ===== src/Prelude/Tests.antt =====
-- Boolean tests on the native numbers, the conditional, the bind of options, and the splits that
-- keep an equation.
use Prim.Native.Nat.{ℕ, ◌≤◌, ◌<◌, compare, Ordering}
use mathlib.Core.Path.{◌≡◌, refl, subst}
use mathlib.Core.Logic.{◌≢◌, ◌⊎◌, inl, inr}
use mathlib.Core.Bool.{Bool, true, false}
use mathlib.Core.Option.{Option, none, some}
use native.Mathlib.Omega.{arith}

abbrev pub ltb : ℕ → ℕ → Bool
ltb a b = elim (compare a b) [ Ordering.lt ↦ true | _ ↦ false ]

abbrev pub leb : ℕ → ℕ → Bool
leb a b = elim (compare a b) [ Ordering.gt ↦ false | _ ↦ true ]

infix 50 ◌==◌
abbrev pub ◌==◌ : ℕ → ℕ → Bool
a == b = elim (compare a b) [ Ordering.eq ↦ true | _ ↦ false ]

infix 1 if◌then◌else◌
abbrev pub if◌then◌else◌ {ℓ} : {A : Type ℓ} → Bool → A → A → A
if true then x else y = x
if false then x else y = y

pub ==→≡ : (a b : ℕ) → (a == b) ≡ true → a ≡ b
==→≡ a b h = ground arith

pub ≡→== : (a b : ℕ) → a ≡ b → (a == b) ≡ true
≡→== a b h = ground arith

pub ==→≢ : (a b : ℕ) → (a == b) ≡ false → a ≢ b
==→≢ a b h = ground arith

pub ≢→== : (a b : ℕ) → a ≢ b → (a == b) ≡ false
≢→== a b h = ground arith

pub leb→le : (a b : ℕ) → leb a b ≡ true → a ≤ b
leb→le a b h = ground arith

pub le→leb : (a b : ℕ) → a ≤ b → leb a b ≡ true
le→leb a b h = ground arith

pub lt→ltb : (a b : ℕ) → a < b → ltb a b ≡ true
lt→ltb a b h = ground arith

pub Bool-cases : (b : Bool) → (b ≡ true) ⊎ (b ≡ false)
Bool-cases true = inl refl
Bool-cases false = inr refl

pub Option-cases {ℓ} : {A : Type ℓ} (o : Option A) → (o ≡ none) ⊎ ((a : A) × (o ≡ some a))
Option-cases none = inl refl
Option-cases (some a) = inr (a, refl)

-- The chain of fallible steps.
infixl 5 ◌>>=◌
abbrev pub ◌>>=◌ {ℓ κ} : {A : Type ℓ} {B : Type κ} → Option A → (A → Option B) → Option B
none >>= f = none
some a >>= f = f a

-- Inversion of a bind that returns.
pub >>=-eq-some {ℓ κ} :
    {A : Type ℓ} {B : Type κ} (m : Option A) (f : A → Option B) {b : B}
    → (m >>= f) ≡ some b
    → (a : A) × (m ≡ some a) × (f a ≡ some b)
>>=-eq-some none f h = cc
>>=-eq-some (some a) f h = (a, refl, h)

-- What holds of both branches holds of the conditional.
pub if_cases {ℓ κ} :
    {A : Type ℓ} (b : Bool) (P : A → Type κ) (x y : A)
    → (b ≡ true → P x)
    → (b ≡ false → P y)
    → P (if b then x else y)
if_cases true P x y h k = h refl
if_cases false P x y h k = k refl

-- A conditional whose test is known.
pub if_false {ℓ κ} :
    {A : Type ℓ} (b : Bool) (P : A → Type κ) (x y : A) → b ≡ false → P y → P (if b then x else y)
if_false true P x y e h = cc
if_false false P x y e h = h

-- A split whose scrutinee is known.
pub some_case {ℓ κ ι} :
    {A : Type ℓ} {B : Type κ} (o : Option A) (P : B → Type ι) (n : B) (f : A → B) (a : A)
    → o ≡ some a
    → P (f a)
    → P (elim o [ none ↦ n | some x ↦ f x ])
some_case none P n f a e h = cc
some_case (some x) P n f a e h = let same : a ≡ x = cc in subst (λ y. P (f y)) same h

pub none_case {ℓ κ ι} :
    {A : Type ℓ} {B : Type κ} (o : Option A) (P : B → Type ι) (n : B) (f : A → B)
    → o ≡ none
    → P n
    → P (elim o [ none ↦ n | some x ↦ f x ])
none_case none P n f e h = h
none_case (some x) P n f e h = cc

pub true_false_case {ℓ κ} :
    {B : Type ℓ} (b : Bool) (P : B → Type κ) (x y : B)
    → (b ≡ true → P x)
    → (b ≡ false → P y)
    → P (elim b [ true ↦ x | false ↦ y ])
true_false_case true P x y h k = h refl
true_false_case false P x y h k = k refl

pub bind_case {ℓ κ ι} :
    {A : Type ℓ} {B : Type κ} (o : Option A) (P : Option B → Type ι) (f : A → Option B) (a : A)
    → o ≡ some a
    → P (f a)
    → P (o >>= f)
bind_case none P f a e h = cc
bind_case (some x) P f a e h = let same : a ≡ x = cc in subst (λ y. P (f y)) same h
