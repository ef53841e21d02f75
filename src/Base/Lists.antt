-- ===== src/Base/Lists.antt =====
-- Lists measured by native numbers, with the tests that the code runs over arrays and sets.
use Prim.Native.Nat.{ℕ, suc, ◌+◌}
use mathlib.Core.Path.{◌≡◌, refl, ap}
use mathlib.Core.Logic.{◌↔◌, ◌≢◌, ◌⊎◌, inl, inr, ⊎_elim}
use mathlib.Core.Bool.{Bool, true, false, ◌&&◌, ◌||◌}
use mathlib.Core.List.{List, [], ◌∷◌, ◌++◌, Memᴰ}
use mathlib.Core.List.Memᴰ
use native.Mathlib.Omega.{arith}
use vcode.Base.Tests.{StrictEq, ◌==◌, if◌then◌else◌}

module _ {ℓ} {A : Type ℓ} where
  abbrev pub length : List A → ℕ
  length [] = 0
  length (x ∷ xs) = suc (length xs)

  abbrev pub all : (A → Bool) → List A → Bool
  all p [] = true
  all p (x ∷ xs) = p x && all p xs

  abbrev pub any : (A → Bool) → List A → Bool
  any p [] = false
  any p (x ∷ xs) = p x || any p xs

  -- `filter` with a Boolean test.
  abbrev pub keep : (A → Bool) → List A → List A
  keep p [] = []
  keep p (x ∷ xs) = let rest = keep p xs in if p x then x ∷ rest else rest

  abbrev pub All {κ} : (A → Type κ) → List A → Type κ
  All P [] = Unit
  All P (x ∷ xs) = P x × All P xs

  pub length-append : (xs ys : List A) → length (xs ++ ys) ≡ length xs + length ys
  length-append [] ys = omega arith
  length-append (x ∷ xs) ys = omega (arith, length-append xs ys)

  pub Memᴰ-cons : (a x : A) (xs : List A) → Memᴰ a (x ∷ xs) ↔ ((a ≡ x) ⊎ Memᴰ a xs)
  Memᴰ-cons a x xs = (Memᴰ.cases_cons, ⊎_elim Memᴰ.head Memᴰ.tail)

  pub mem_of_eq : {a b : A} {xs : List A} → a ≡ b → Memᴰ b xs → Memᴰ a xs
  mem_of_eq h m = rw h m

  pub Memᴰ-append : (a : A) (xs ys : List A) → Memᴰ a (xs ++ ys) ↔ (Memᴰ a xs ⊎ Memᴰ a ys)
  Memᴰ-append a xs ys = (Memᴰ.append_cases xs, ⊎_elim (Memᴰ.append_left ys) (Memᴰ.append_right xs))

module _ {ℓ} {A : Type ℓ} ⦃e : StrictEq A⦄ where
  -- `xs.includes(a)`, and `set.has(a)` for a set kept as a list.
  unfoldable pub includes : A → List A → Bool
  includes a [] = false
  includes a (x ∷ xs) = x == a || includes a xs

  -- `set.add(a)`
  unfoldable pub add_to_set : A → List A → List A
  unfolding includes
  add_to_set a xs = if includes a xs then xs else xs ++ a ∷ []

  -- `xs.filter((x) => x !== a)`, and `set.delete(a)`.
  unfoldable pub without : A → List A → List A
  without a [] = []
  without a (x ∷ xs) = let rest = without a xs in if x == a then rest else x ∷ rest

  pub includes_iff : (a : A) (xs : List A) → (includes a xs ≡ true) ↔ Memᴰ a xs
  unfolding includes
  includes_iff a [] = (λ h. cc, λ m. absurd (Memᴰ.not-nil m))
  includes_iff a (x ∷ xs) = ground (arith, e.equal_iff x a, includes_iff a xs, Memᴰ-cons a x xs)

  pub mem-add_to_set : (a b : A) (xs : List A) → Memᴰ b (add_to_set a xs) ↔ (Memᴰ b xs ⊎ (b ≡ a))
  unfolding add_to_set
  mem-add_to_set a b xs = ground (
    arith,
    includes_iff a xs,
    Memᴰ-append b xs (a ∷ []),
    Memᴰ-cons b a [],
    mem_self b a xs,
    λ (m : Memᴰ b []). Memᴰ.not-nil m,
  )
    where
      mem_self : (b a : A) (xs : List A) → b ≡ a → Memᴰ a xs → Memᴰ b xs
      mem_self b a xs h m = rw h m

  pub mem-without : (a b : A) (xs : List A) → Memᴰ b (without a xs) ↔ (Memᴰ b xs × (b ≢ a))
  unfolding without
  mem-without a b [] = (λ m. absurd (Memᴰ.not-nil m), λ (m, _). m)
  mem-without a b (x ∷ xs) =
      ground
        (arith, e.equal_iff x a, mem-without a b xs, Memᴰ-cons b x xs, Memᴰ-cons b x (without a xs))

module _ {ℓ} {A : Type ℓ} where
  pub all_iff :
      (p : A → Bool) (xs : List A) → (all p xs ≡ true) ↔ ((a : A) → Memᴰ a xs → p a ≡ true)
  all_iff p [] = (λ _ a m. absurd (Memᴰ.not-nil m), λ _. refl)
  all_iff p (x ∷ xs) = (
    λ h a m.
        let both : (p x ≡ true) × (all p xs ≡ true) = ground arith in
        elim (Memᴰ.cases_cons m) [
          | inl e ↦ rw e both.0
          | inr later ↦ (all_iff p xs).0 both.1 a later
        ],
    λ h.
        let first = h x (Memᴰ.head refl) in
        let rest = (all_iff p xs).1 (λ a m. h a (Memᴰ.tail m)) in ground arith,
  )

  pub mem-keep :
      (p : A → Bool) (a : A) (xs : List A) → Memᴰ a (keep p xs) ↔ (Memᴰ a xs × (p a ≡ true))
  mem-keep p a [] = (λ m. absurd (Memᴰ.not-nil m), λ (m, _). m)
  mem-keep p a (x ∷ xs) =
      ground (arith, mem-keep p a xs, Memᴰ-cons a x xs, Memᴰ-cons a x (keep p xs), eq_true a x)
    where
      eq_true : (a x : A) → a ≡ x → p a ≡ p x
      eq_true a x e = ap p e
