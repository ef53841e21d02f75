-- ===== src/MergeTrain/Order.antt =====
-- Which feature `nextToIntegrate` picks (src/core/merge-train/index.ts).
use mathlib.Core.List.Memᴰ
use vcode.Base.{
  ℕ, ◌≤◌, ◌<◌, ◌≡◌, ◌≢◌, refl, ◌↔◌, ◌⊎◌, inl, inr, arith, false, List, [], ◌∷◌, Option, none, some,
  Memᴰ, or_else, mem-keep, ◌==◌,
}
use vcode.Base.Dict.{values}
use vcode.Base.Sort.{sort_by, IsOrder, is_gt, sort_by-IsSortedBy, mem-sort_by, All-mem, IsSortedBy}
use vcode.Types.Workflow.{FeatureId, merge_queued, feature_collab_eq}
use vcode.Types.Domain.{Feature}
use vcode.Graph.Store.{Graph}
use vcode.MergeTrain.{compare_queued, queued_features, first_id, next_to_integrate}

-- By re-entries, the most first; then by entry, the earliest first.
abbrev pub AgeBefore : Feature → Feature → Type 0
AgeBefore a b =
    (or_else b.merge_train_reentry_count 0 < or_else a.merge_train_reentry_count 0)
    ⊎ ((or_else a.merge_train_reentry_count 0 ≡ or_else b.merge_train_reentry_count 0)
        × (or_else a.merge_train_entry_seq 0 ≤ or_else b.merge_train_entry_seq 0))

-- By manual position, the lowest first and none last; then by age.
abbrev pub PositionBefore : Option ℕ → Option ℕ → Type 0 → Type 0
PositionBefore (some p) none age = Unit
PositionBefore none (some q) age = ⊥
PositionBefore none none age = age
PositionBefore (some p) (some q) age = (p < q) ⊎ ((p ≡ q) × age)

abbrev pub Before : Feature → Feature → Type 0
Before a b =
    PositionBefore a.merge_train_manual_position b.merge_train_manual_position (AgeBefore a b)

compare_iff : (a b : Feature) → (is_gt (compare_queued a b) ≡ false) ↔ Before a b
unfolding compare_queued
compare_iff a b = ground arith

Before-total : (a b : Feature) → ¬ Before a b → Before b a
Before-total a b h = ground arith

Before-trans : (a b c : Feature) → Before a b → Before b c → Before a c
Before-trans a b c h k = ground arith

queued_order : IsOrder compare_queued
queued_order = record {
  total = λ a b h. (compare_iff b a).1 (Before-total a b (λ k. cc ((compare_iff a b).1 k)));
  trans = λ a b c h k.
      (compare_iff a c).1 (Before-trans a b c ((compare_iff a b).0 h) ((compare_iff b c).0 k));
}

first_of_sorted :
    (xs : List Feature) (id : FeatureId)
    → IsSortedBy compare_queued xs
    → first_id xs ≡ some id
    → (f : Feature) × (f.id ≡ id) × Memᴰ f xs × ((x : Feature) → Memᴰ x xs → Before f x)
first_of_sorted [] id s e = cc
first_of_sorted (f ∷ rest) id (first, s) e = (
  f,
  ground arith,
  Memᴰ.head refl,
  λ x m. elim (Memᴰ.cases_cons m) [
    | inl same ↦ rw same (Before-refl f)
    | inr later ↦
        (compare_iff f x).0 (All-mem (λ y. is_gt (compare_queued f y) ≡ false) rest first x later)
  ],
)
  where
    Before-refl : (f : Feature) → Before f f
    Before-refl f = ground arith

-- The feature that `nextToIntegrate` picks is queued, and comes before every other queued feature: by
-- manual position, a feature with none after all that have one, then by re-entries with the most
-- first, then by entry sequence.
pub next_to_integrate-Before :
    (g : Graph) (id : FeatureId)
    → next_to_integrate g ≡ some id
    → (f : Feature) × (f.id ≡ id)
      × Memᴰ f (values g.features)
      × (f.collab_control ≡ merge_queued)
      × ((q : Feature) → Memᴰ q (values g.features) → q.collab_control ≡ merge_queued → Before f q)
unfolding next_to_integrate queued_features
next_to_integrate-Before g id e =
    let test = λ (f : Feature). f.collab_control == merge_queued in
    let queued = queued_features g in
    let (f, named, listed, first) =
      first_of_sorted (sort_by compare_queued queued) id
        (sort_by-IsSortedBy compare_queued queued_order queued) e in
    let (there, waits) =
      (mem-keep test f (values g.features)).0 ((mem-sort_by compare_queued f queued).0 listed) in
    (
      f,
      named,
      there,
      (feature_collab_eq.equal_iff _ _).0 waits,
      λ q m w. first q (
          (mem-sort_by compare_queued q queued).1
            ((mem-keep test q (values g.features)).1 (m, (feature_collab_eq.equal_iff _ _).1 w))),
    )

first_id-none : (xs : List Feature) → (first_id xs ≡ none) ↔ ((f : Feature) → ¬ Memᴰ f xs)
first_id-none [] = (λ e f m. Memᴰ.not-nil m, λ h. refl)
first_id-none (f ∷ xs) = (λ e. cc, λ h. absurd (h f (Memᴰ.head refl)))

-- `nextToIntegrate` picks none exactly when no feature is queued.
pub next_to_integrate-none :
    (g : Graph)
    → (next_to_integrate g ≡ none)
      ↔ ((f : Feature) → Memᴰ f (values g.features) → f.collab_control ≢ merge_queued)
unfolding next_to_integrate queued_features
next_to_integrate-none g =
    let test = λ (f : Feature). f.collab_control == merge_queued in
    let empty = first_id-none (sort_by compare_queued (queued_features g)) in
    (
      λ e f m w. empty.0 e f (
          (mem-sort_by compare_queued f (queued_features g)).1
            ((mem-keep test f (values g.features)).1 (m, (feature_collab_eq.equal_iff _ _).1 w))),
      λ h. empty.1 (λ f m.
          let (there, waits) =
            (mem-keep test f (values g.features)).0
              ((mem-sort_by compare_queued f (queued_features g)).0 m) in
          h f there ((feature_collab_eq.equal_iff _ _).0 waits)),
    )
