-- ===== src/Base/Tests.antt =====
-- Boolean tests, the conditional, and equality as an instance.
use Prim.Native.Nat.{ℕ, compare, Ordering}
use mathlib.Core.Path.{◌≡◌, refl}
use mathlib.Core.Logic.{◌↔◌, ◌⊎◌, inl, inr}
use mathlib.Core.Bool.{Bool, true, false, ◌&&◌}
use mathlib.Core.Option.{Option, none, some}
use mathlib.Core.List.{List, [], ◌∷◌}
use native.Mathlib.Omega.{arith}

abbrev pub ltb : ℕ → ℕ → Bool
ltb a b = elim (compare a b) [ Ordering.lt ↦ true | _ ↦ false ]

abbrev pub leb : ℕ → ℕ → Bool
leb a b = elim (compare a b) [ Ordering.gt ↦ false | _ ↦ true ]

abbrev nat_same : ℕ → ℕ → Bool
nat_same a b = elim (compare a b) [ Ordering.eq ↦ true | _ ↦ false ]

infix 1 if◌then◌else◌
abbrev pub if◌then◌else◌ {ℓ} : {A : Type ℓ} → Bool → A → A → A
if true then x else y = x
if false then x else y = y

-- To split on a computed value and keep the equation.
pub Bool-cases : (b : Bool) → (b ≡ true) ⊎ (b ≡ false)
Bool-cases true = inl refl
Bool-cases false = inr refl

pub Option-cases {ℓ} : {A : Type ℓ} (o : Option A) → (o ≡ none) ⊎ ((a : A) × (o ≡ some a))
Option-cases none = inl refl
Option-cases (some a) = inr (a, refl)

-- A type whose values Python compares by `==`.
pub record Eq {ℓ} (A : Type ℓ) : Type ℓ where
  pub same : A → A → Bool
  pub same_iff : (x y : A) → (same x y ≡ true) ↔ (x ≡ y)

infix 50 ◌==◌
abbrev pub ◌==◌ {ℓ} : {A : Type ℓ} ⦃e : Eq A⦄ → A → A → Bool
◌==◌ ⦃e⦄ x y = e.same x y

pub ==_iff {ℓ} : {A : Type ℓ} ⦃e : Eq A⦄ (x y : A) → ((x == y) ≡ true) ↔ (x ≡ y)
==_iff ⦃e⦄ = e.same_iff

pub nat_same_iff : (m n : ℕ) → (nat_same m n ≡ true) ↔ (m ≡ n)
nat_same_iff m n = ground arith

instance abbrev pub nat_eq : Eq ℕ
nat_eq = record { same = nat_same; same_iff = nat_same_iff }

module _ {ℓ} {A : Type ℓ} ⦃e : Eq A⦄ where
  abbrev option_same : Option A → Option A → Bool
  option_same none none = true
  option_same none (some b) = false
  option_same (some a) none = false
  option_same (some a) (some b) = a == b

  pub option_same_iff : (a b : Option A) → (option_same a b ≡ true) ↔ (a ≡ b)
  option_same_iff none none = ground arith
  option_same_iff none (some b) = ground arith
  option_same_iff (some a) none = ground arith
  option_same_iff (some a) (some b) = ground (arith, ==_iff a b)

  instance abbrev pub option_eq : Eq (Option A)
  option_eq = record { same = option_same; same_iff = option_same_iff }

  abbrev list_same : List A → List A → Bool
  list_same [] [] = true
  list_same [] (b ∷ bs) = false
  list_same (a ∷ xs) [] = false
  list_same (a ∷ xs) (b ∷ bs) = a == b && list_same xs bs

  pub list_same_iff : (a b : List A) → (list_same a b ≡ true) ↔ (a ≡ b)
  list_same_iff [] [] = ground arith
  list_same_iff [] (b ∷ bs) = ground arith
  list_same_iff (a ∷ xs) [] = ground arith
  list_same_iff (a ∷ xs) (b ∷ bs) = ground (arith, ==_iff a b, list_same_iff xs bs)

  instance abbrev pub list_eq : Eq (List A)
  list_eq = record { same = list_same; same_iff = list_same_iff }
