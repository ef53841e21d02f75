-- ===== src/Scheduling/Priority/Order.antt =====
-- The order of the units that `prioritizeReadyWork` of src/core/scheduling/index.ts returns.
use Prim.Native.Nat.{compare}
use vcode.Base.{ℕ, ◌<◌, String, ◌≡◌, ◌↔◌, ◌⊎◌, arith, false, List, [], ◌∷◌, Ordering, All}
use vcode.Base.Sort.{sort_by, then_by, is_gt, IsOrder, IsSortedBy, sort_by-IsSortedBy}
use vcode.Scheduling.{SchedulableUnit}
use vcode.Scheduling.Priority.{
  Ranking, unit_position, unit_tier, unit_depth, unit_failed, unit_overlap, unit_fresh,
  unit_ready_at, unit_id, compare_units,
}

-- By the pairs in turn, the smaller first; by the last relation when all are equal.
abbrev pub InTurn : List (ℕ × ℕ) → Type 0 → Type 0
InTurn [] tie = tie
InTurn ((x, y) ∷ rest) tie = (x < y) ⊎ ((x ≡ y) × InTurn rest tie)

then_by_iff :
    (x y : ℕ) (c : Ordering) (T : Type 0)
    → (is_gt c ≡ false) ↔ T
    → (is_gt (then_by (compare x y) c) ≡ false) ↔ ((x < y) ⊎ ((x ≡ y) × T))
then_by_iff x y c T same = ground (arith, same)

module _ {A : Type 0} (key : A → ℕ) (c : A → A → Ordering) (order : IsOrder c) where
  up-IsOrder : IsOrder (λ a b. then_by (compare (key a) (key b)) (c a b))
  up-IsOrder = record {
    total = λ a b h. ground (arith, order.total a b);
    trans = λ a b d h k. ground (arith, order.trans a b d);
  }

  down-IsOrder : IsOrder (λ a b. then_by (compare (key b) (key a)) (c a b))
  down-IsOrder = record {
    total = λ a b h. ground (arith, order.total a b);
    trans = λ a b d h k. ground (arith, order.trans a b d);
  }

abbrev pub keys_of : Ranking → SchedulableUnit → SchedulableUnit → List (ℕ × ℕ)
keys_of r a b =
    (unit_position r a, unit_position r b)
    ∷ (unit_tier r a, unit_tier r b)
    ∷ (unit_depth r b, unit_depth r a)
    ∷ (unit_failed a, unit_failed b)
    ∷ (unit_overlap r a, unit_overlap r b)
    ∷ (unit_fresh a, unit_fresh b)
    ∷ (unit_ready_at a, unit_ready_at b)
    ∷ []

-- Each element of a list before each later one.
abbrev pub Pairwise {ℓ} : {A : Type ℓ} → (A → A → Type 0) → List A → Type ℓ
Pairwise R [] = Unit
Pairwise R (x ∷ xs) = All (R x) xs × Pairwise R xs

module _ (locale_compare : String → String → Ordering) where
  -- By the keys of the comparator in turn, and then by id as the language orders texts.
  abbrev pub ComesFirst : Ranking → SchedulableUnit → SchedulableUnit → Type 0
  ComesFirst r a b = InTurn (keys_of r a b) (is_gt (locale_compare (unit_id a) (unit_id b)) ≡ false)

  module _ (language : IsOrder locale_compare) where
    id-IsOrder : IsOrder (λ a b. locale_compare (unit_id a) (unit_id b))
    id-IsOrder = record {
      total = λ a b. language.total (unit_id a) (unit_id b);
      trans = λ a b d. language.trans (unit_id a) (unit_id b) (unit_id d);
    }

    units-IsOrder : (r : Ranking) → IsOrder (compare_units locale_compare r)
    unfolding compare_units
    units-IsOrder r = up-IsOrder (unit_position r) _ (
        up-IsOrder (unit_tier r) _ (
          down-IsOrder (unit_depth r) _ (
            up-IsOrder unit_failed _ (
              up-IsOrder (unit_overlap r) _
                (up-IsOrder unit_fresh _ (up-IsOrder unit_ready_at _ id-IsOrder))))))

  compare_units_iff :
      (r : Ranking) (a b : SchedulableUnit)
      → (is_gt (compare_units locale_compare r a b) ≡ false) ↔ ComesFirst r a b
  unfolding compare_units
  compare_units_iff r a b = then_by_iff _ _ _ _ (
      then_by_iff _ _ _ _ (
        then_by_iff _ _ _ _ (
          then_by_iff _ _ _ _
            (then_by_iff _ _ _ _ (then_by_iff _ _ _ _ (then_by_iff _ _ _ _ (λ h. h, λ h. h)))))))

  Pairwise-ComesFirst :
      (r : Ranking) (us : List SchedulableUnit)
      → IsSortedBy (compare_units locale_compare r) us
      → Pairwise (ComesFirst r) us
  Pairwise-ComesFirst r [] s = tt
  Pairwise-ComesFirst r (u ∷ us) (first, s) = (each us first, Pairwise-ComesFirst r us s)
    where
      each :
          (vs : List SchedulableUnit)
          → All (λ v. is_gt (compare_units locale_compare r u v) ≡ false) vs
          → All (ComesFirst r u) vs
      each [] h = tt
      each (v ∷ vs) (h, rest) = ((compare_units_iff r u v).0 h, each vs rest)

pub sorted-ComesFirst :
    (locale_compare : String → String → Ordering)
    → IsOrder locale_compare
    → (r : Ranking) (us : List SchedulableUnit)
    → Pairwise (ComesFirst locale_compare r) (sort_by (compare_units locale_compare r) us)
sorted-ComesFirst locale_compare language r us =
    Pairwise-ComesFirst locale_compare r (sort_by (compare_units locale_compare r) us) (
      sort_by-IsSortedBy (compare_units locale_compare r) (units-IsOrder locale_compare language r)
        us)
