-- ===== src/Base/Tests.antt =====
-- Boolean tests, the conditional, and the interface of `===` on the types that the code compares.
use Prim.Native.Nat.{ℕ, compare, Ordering}
use Prim.Native.String.{String}
use mathlib.Core.Path.{◌≡◌, refl}
use mathlib.Core.Logic.{◌↔◌, ◌⊎◌, ◌≢◌, inl, inr}
use mathlib.Core.Bool.{Bool, true, false, not}
use mathlib.Core.Option.{Option, none, some}
use native.Mathlib.Omega.{arith}
use text.Mathlib.Text.{◌==◌ as str_eq}
use text.Mathlib.TextEquality.{eq_iff}

abbrev pub ltb : ℕ → ℕ → Bool
ltb a b = elim (compare a b) [ Ordering.lt ↦ true | _ ↦ false ]

abbrev pub leb : ℕ → ℕ → Bool
leb a b = elim (compare a b) [ Ordering.gt ↦ false | _ ↦ true ]

abbrev pub nat_beq : ℕ → ℕ → Bool
nat_beq a b = elim (compare a b) [ Ordering.eq ↦ true | _ ↦ false ]

infix 1 if◌then◌else◌
abbrev pub if◌then◌else◌ {ℓ} : {A : Type ℓ} → Bool → A → A → A
if true then x else y = x
if false then x else y = y

pub nat_beq_iff : (a b : ℕ) → (nat_beq a b ≡ true) ↔ (a ≡ b)
nat_beq_iff a b = ground arith

-- `===` with the law that it decides equality.
pub record StrictEq {ℓ} (A : Type ℓ) : Type ℓ where
  pub equal : A → A → Bool
  pub equal_iff : (a b : A) → (equal a b ≡ true) ↔ (a ≡ b)

instance abbrev pub nat_eq : StrictEq ℕ
nat_eq = record { equal = nat_beq; equal_iff = nat_beq_iff }

instance abbrev pub string_eq : StrictEq String
string_eq = record { equal = str_eq; equal_iff = eq_iff }

infix 50 ◌==◌ ◌!=◌
abbrev pub ◌==◌ {ℓ} : {A : Type ℓ} ⦃e : StrictEq A⦄ → A → A → Bool
◌==◌ ⦃e⦄ = e.equal

abbrev pub ◌!=◌ {ℓ} : {A : Type ℓ} ⦃e : StrictEq A⦄ → A → A → Bool
◌!=◌ ⦃e⦄ a b = not (e.equal a b)

module _ {ℓ} {A : Type ℓ} ⦃e : StrictEq A⦄ where
  -- What the outcome of a test on equality says.
  pub eq_of_beq : (a b : A) → (a == b) ≡ true → a ≡ b
  eq_of_beq a b = (e.equal_iff a b).0

  pub eq_of_not_bne : (a b : A) → (a != b) ≡ false → a ≡ b
  eq_of_not_bne a b h = (e.equal_iff a b).0 (ground arith)

  pub ne_of_beq : (a b : A) → (a == b) ≡ false → a ≢ b
  ne_of_beq a b h p = cc ((e.equal_iff a b).1 p)

  pub beq_of_ne : (a b : A) → a ≢ b → (a == b) ≡ false
  beq_of_ne a b h = ground (arith, e.equal_iff a b)

  pub beq_of_eq : {a b : A} → a ≡ b → (a == b) ≡ true
  beq_of_eq {a} {b} = (e.equal_iff a b).1

  pub beq_self : (a : A) → (a == a) ≡ true
  beq_self a = (e.equal_iff a a).1 refl

-- To split on a computed value and keep the equation.
pub Bool-cases : (b : Bool) → (b ≡ true) ⊎ (b ≡ false)
Bool-cases true = inl refl
Bool-cases false = inr refl

pub Option-cases {ℓ} : {A : Type ℓ} (o : Option A) → (o ≡ none) ⊎ ((a : A) × (o ≡ some a))
Option-cases none = inl refl
Option-cases (some a) = inr (a, refl)

-- `o !== undefined`, and `o ?? d`.
abbrev pub is_some {ℓ} : {A : Type ℓ} → Option A → Bool
is_some none = false
is_some (some _) = true

abbrev pub or_else {ℓ} : {A : Type ℓ} → Option A → A → A
or_else none d = d
or_else (some a) d = a
