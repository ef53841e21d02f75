-- ===== src/Base/Sort.antt =====
-- `Array.prototype.sort` with a comparator: a stable sort, here by insertion. A comparator's number
-- is given by its sign: `lt` for a negative one, `gt` for a positive one.
use Prim.Native.Nat.{Ordering}
use mathlib.Core.Path.{◌≡◌}
use mathlib.Core.Logic.{◌↔◌, ◌⊎◌, inl, inr, ⊎_elim}
use mathlib.Core.Bool.{Bool, true, false}
use mathlib.Core.List.{List, [], ◌∷◌, Memᴰ, Perm}
use mathlib.Core.List.Memᴰ
use mathlib.Core.List.Perm
use native.Mathlib.Omega.{arith}
use vcode.Base.Tests.{if◌then◌else◌, Bool-cases}
use vcode.Base.Lists.{All, Memᴰ-cons}

abbrev pub is_gt : Ordering → Bool
is_gt Ordering.gt = true
is_gt Ordering.eq = false
is_gt Ordering.lt = false

-- `c1 !== 0 ? c1 : c2`
abbrev pub then_by : Ordering → Ordering → Ordering
then_by Ordering.eq c = c
then_by Ordering.lt c = Ordering.lt
then_by Ordering.gt c = Ordering.gt

module _ {ℓ} {A : Type ℓ} (cmp : A → A → Ordering) where
  -- Before the first element that is not smaller.
  unfoldable pub insert_by : A → List A → List A
  insert_by x [] = x ∷ []
  insert_by x (y ∷ ys) =
      let later = insert_by x ys in if is_gt (cmp x y) then y ∷ later else x ∷ y ∷ ys

  unfoldable pub sort_by : List A → List A
  unfolding insert_by
  sort_by [] = []
  sort_by (x ∷ xs) = insert_by x (sort_by xs)

  -- The comparator is a total preorder.
  pub record IsOrder : Type ℓ where
    pub total : (x y : A) → is_gt (cmp x y) ≡ true → is_gt (cmp y x) ≡ false
    pub trans :
        (x y z : A) → is_gt (cmp x y) ≡ false → is_gt (cmp y z) ≡ false → is_gt (cmp x z) ≡ false

  -- Nothing stands before something smaller.
  abbrev pub IsSortedBy : List A → Type ℓ
  IsSortedBy [] = Unit
  IsSortedBy (x ∷ xs) = All (λ y. is_gt (cmp x y) ≡ false) xs × IsSortedBy xs

  insert_by-perm : (x : A) (xs : List A) → Perm (insert_by x xs) (x ∷ xs)
  unfolding insert_by
  insert_by-perm x [] = Perm.refl (x ∷ [])
  insert_by-perm x (y ∷ ys) = elim (Bool-cases (is_gt (cmp x y))) [
    | inl late ↦ rw late (Perm.trans (Perm.cons y (insert_by-perm x ys)) (Perm.swap x y ys))
    | inr here ↦ rw here (Perm.refl (x ∷ y ∷ ys))
  ]

  pub sort_by-perm : (xs : List A) → Perm (sort_by xs) xs
  unfolding sort_by
  sort_by-perm [] = Perm.nil
  sort_by-perm (x ∷ xs) = Perm.trans (insert_by-perm x (sort_by xs)) (Perm.cons x (sort_by-perm xs))

  mem-insert_by : (a x : A) (xs : List A) → Memᴰ a (insert_by x xs) ↔ ((a ≡ x) ⊎ Memᴰ a xs)
  unfolding insert_by
  mem-insert_by a x [] = Memᴰ-cons a x []
  mem-insert_by a x (y ∷ ys) = ground (
    arith,
    mem-insert_by a x ys,
    Memᴰ-cons a x (y ∷ ys),
    Memᴰ-cons a y ys,
    Memᴰ-cons a y (insert_by x ys),
  )

  pub mem-sort_by : (a : A) (xs : List A) → Memᴰ a (sort_by xs) ↔ Memᴰ a xs
  unfolding sort_by
  mem-sort_by a [] = (λ m. m, λ m. m)
  mem-sort_by a (x ∷ xs) =
      ground (arith, mem-insert_by a x (sort_by xs), mem-sort_by a xs, Memᴰ-cons a x xs)

  module _ (order : IsOrder) where
    All-trans :
        (x y : A) (zs : List A)
        → is_gt (cmp x y) ≡ false
        → All (λ z. is_gt (cmp y z) ≡ false) zs
        → All (λ z. is_gt (cmp x z) ≡ false) zs
    All-trans x y [] h a = tt
    All-trans x y (z ∷ zs) h (a, rest) = (order.trans x y z h a, All-trans x y zs h rest)

    All-insert :
        (x y : A) (zs : List A)
        → is_gt (cmp y x) ≡ false
        → All (λ z. is_gt (cmp y z) ≡ false) zs
        → All (λ z. is_gt (cmp y z) ≡ false) (insert_by x zs)
    unfolding insert_by
    All-insert x y [] h a = (h, tt)
    All-insert x y (z ∷ zs) h (a, rest) = elim (Bool-cases (is_gt (cmp x z))) [
      | inl late ↦ rw late (a, All-insert x y zs h rest)
      | inr now ↦ rw now (h, (a, rest))
    ]

    insert_by-IsSortedBy : (x : A) (xs : List A) → IsSortedBy xs → IsSortedBy (insert_by x xs)
    unfolding insert_by
    insert_by-IsSortedBy x [] s = (tt, tt)
    insert_by-IsSortedBy x (y ∷ ys) (first, s) = elim (Bool-cases (is_gt (cmp x y))) [
      | inl late ↦
          rw late (All-insert x y ys (order.total x y late) first, insert_by-IsSortedBy x ys s)
      | inr now ↦ rw now ((now, All-trans x y ys now first), (first, s))
    ]

    pub sort_by-IsSortedBy : (xs : List A) → IsSortedBy (sort_by xs)
    unfolding sort_by
    sort_by-IsSortedBy [] = tt
    sort_by-IsSortedBy (x ∷ xs) = insert_by-IsSortedBy x (sort_by xs) (sort_by-IsSortedBy xs)

pub All-mem {ℓ κ} :
    {A : Type ℓ} (P : A → Type κ) (xs : List A) → All P xs → (a : A) → Memᴰ a xs → P a
All-mem P [] h a m = absurd (Memᴰ.not-nil m)
All-mem P (x ∷ xs) (p, h) a m = ⊎_elim (λ e. rw e p) (All-mem P xs h a) (Memᴰ.cases_cons m)
