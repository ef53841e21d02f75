-- ===== src/Base/Dict.antt =====
-- JavaScript's `Map` with string keys, as an association list in insertion order: `set` on a key
-- that is present keeps its place, and a new key goes to the end.
use Prim.Native.String.{String}
use mathlib.Core.Path.{◌≡◌, refl, sym, subst}
use mathlib.Core.Logic.{inl, inr, ◌≢◌}
use mathlib.Core.Bool.{Bool}
use mathlib.Core.Option.{Option, none, some}
use mathlib.Core.List.{List, [], ◌∷◌, Memᴰ}
use native.Mathlib.Omega.{arith}
use text.Mathlib.TextEquality.{eq_iff}
use vcode.Base.Tests.{◌==◌, string_eq, Bool-cases, eq_of_beq, if◌then◌else◌, is_some}

abbrev pub Dict {ℓ} : Type ℓ → Type ℓ
Dict V = List (String × V)

module _ {ℓ} {V : Type ℓ} where
  unfoldable pub get : String → Dict V → Option V
  get k [] = none
  get k ((j, v) ∷ m) = if j == k then some v else get k m

  abbrev pub has : String → Dict V → Bool
  has k m = is_some (get k m)

  unfoldable pub set : String → V → Dict V → Dict V
  set k v [] = (k, v) ∷ []
  set k v ((j, w) ∷ m) = if j == k then (j, v) ∷ m else (j, w) ∷ set k v m

  unfoldable pub delete : String → Dict V → Dict V
  delete k [] = []
  delete k ((j, w) ∷ m) = let rest = delete k m in if j == k then rest else (j, w) ∷ rest

  unfoldable pub values : Dict V → List V
  values [] = []
  values ((j, w) ∷ m) = w ∷ values m

  unfoldable pub keys : Dict V → List String
  keys [] = []
  keys ((j, w) ∷ m) = j ∷ keys m

  pub get-set :
      (k j : String) (v : V) (m : Dict V) → get j (set k v m) ≡ (if k == j then some v else get j m)
  unfolding get set
  get-set k j v [] = refl
  get-set k j v ((i, w) ∷ m) = ground (arith, eq_iff k j, eq_iff i k, eq_iff i j, get-set k j v m)

  pub get-delete :
      (k j : String) (m : Dict V) → get j (delete k m) ≡ (if k == j then none else get j m)
  unfolding get delete
  get-delete k j [] = ground arith
  get-delete k j ((i, w) ∷ m) = ground (arith, eq_iff k j, eq_iff i k, eq_iff i j, get-delete k j m)

  -- Every entry satisfies `P`.
  abbrev pub Every {κ} : (String → V → Type κ) → Dict V → Type (ℓ ⊔ κ)
  Every P m = (k : String) (x : V) → get k m ≡ some x → P k x

  pub Every-set {κ} :
      (P : String → V → Type κ) (k : String) (v : V) (m : Dict V)
      → Every P m
      → P k v
      → Every P (set k v m)
  Every-set P k v m all new j x e = elim (Bool-cases (k == j)) [
    | inl same ↦
        let at : v ≡ x = ground (arith, get-set k j v m) in
        subst (P j) at (subst (λ i. P i v) (eq_of_beq k j same) new)
    | inr other ↦ all j x (rw (get-set, other) at e)
  ]

  pub Every-delete {κ} :
      (P : String → V → Type κ) (k : String) (m : Dict V) → Every P m → Every P (delete k m)
  Every-delete P k m all j x e = elim (Bool-cases (k == j)) [
    | inl same ↦ cc (rw (get-delete, same) at e)
    | inr other ↦ all j x (rw (get-delete, other) at e)
  ]

  -- A key that is there is among the keys.
  pub mem-keys : (k : String) (m : Dict V) → get k m ≢ none → Memᴰ k (keys m)
  unfolding get keys
  mem-keys k [] there = absurd (there refl)
  mem-keys k ((j, v) ∷ m) there = elim (Bool-cases (j == k)) [
    | inl same ↦ Memᴰ.head (sym (eq_of_beq j k same))
    | inr other ↦ Memᴰ.tail (mem-keys k m (rw other at there))
  ]
