-- ===== src/Base/Tests.antt =====
-- Boolean tests on the native numbers, the conditional, and lodash's `isNil` and `defaultTo`.
use Prim.Native.Nat.{ℕ, compare, Ordering}
use mathlib.Core.Path.{◌≡◌, refl}
use mathlib.Core.Logic.{◌↔◌, ◌⊎◌, inl, inr}
use mathlib.Core.Bool.{Bool, true, false}
use mathlib.Core.Option.{Option, none, some}
use native.Mathlib.Omega.{arith}

abbrev pub ltb : ℕ → ℕ → Bool
ltb a b = elim (compare a b) [ Ordering.lt ↦ true | _ ↦ false ]

abbrev pub leb : ℕ → ℕ → Bool
leb a b = elim (compare a b) [ Ordering.gt ↦ false | _ ↦ true ]

infix 50 ◌==◌
abbrev pub ◌==◌ : ℕ → ℕ → Bool
a == b = elim (compare a b) [ Ordering.eq ↦ true | _ ↦ false ]

infix 1 if◌then◌else◌
abbrev pub if◌then◌else◌ {ℓ} : {A : Type ℓ} → Bool → A → A → A
if true then x else y = x
if false then x else y = y

pub ==_iff : (a b : ℕ) → ((a == b) ≡ true) ↔ (a ≡ b)
==_iff a b = ground arith

pub Bool-cases : (b : Bool) → (b ≡ true) ⊎ (b ≡ false)
Bool-cases true = inl refl
Bool-cases false = inr refl

module _ {ℓ} {A : Type ℓ} where
  pub Option-cases : (o : Option A) → (o ≡ none) ⊎ ((a : A) × (o ≡ some a))
  Option-cases none = inl refl
  Option-cases (some a) = inr (a, refl)

  -- `isNil`
  abbrev pub is_nil : Option A → Bool
  is_nil none = true
  is_nil (some _) = false

  pub is_nil→none : (o : Option A) → is_nil o ≡ true → o ≡ none
  is_nil→none none h = refl
  is_nil→none (some a) h = cc

  pub is_nil→some : (o : Option A) → is_nil o ≡ false → (a : A) × (o ≡ some a)
  is_nil→some none h = cc
  is_nil→some (some a) h = (a, refl)

  -- `defaultTo(a, b)` between two values that may both be missing
  abbrev pub default_to : Option A → Option A → Option A
  default_to none d = d
  default_to (some a) d = some a

-- `===` between an optional number and a number
abbrev pub is_some_eq : Option ℕ → ℕ → Bool
is_some_eq none n = false
is_some_eq (some m) n = m == n

-- `===` between two optional numbers
abbrev pub same_option : Option ℕ → Option ℕ → Bool
same_option none none = true
same_option none (some _) = false
same_option (some _) none = false
same_option (some a) (some b) = a == b

pub same_option-some : (o : Option ℕ) (a : ℕ) → same_option o (some a) ≡ true → o ≡ some a
same_option-some none a h = cc
same_option-some (some b) a h = ground arith

pub if_true {ℓ} : {A : Type ℓ} (b : Bool) (x y : A) → b ≡ true → (if b then x else y) ≡ x
if_true b x y h = rw h refl

-- Which branch a conditional's value comes from.
pub if_cases {ℓ} :
    {A : Type ℓ} (b : Bool) (x y : A) {r : A}
    → (if b then x else y) ≡ r
    → ((b ≡ true) × (x ≡ r)) ⊎ ((b ≡ false) × (y ≡ r))
if_cases true x y h = inl (refl, h)
if_cases false x y h = inr (refl, h)
