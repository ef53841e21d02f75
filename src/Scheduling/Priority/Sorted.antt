-- ===== src/Scheduling/Priority/Sorted.antt =====
-- The reservations of the units are the same after the sort of `prioritizeReadyWork`
-- (src/core/scheduling/index.ts).
use vcode.Base.{
  String, ◌≡◌, refl, ◌∙◌, ◌↔◌, inl, inr, ⊎_elim, arith, List, [], ◌∷◌, ◌++◌, or_else, Memᴰ,
  Memᴰ-append, length-append, Bool-cases, length, Ordering,
}
use vcode.Base.Sort.{sort_by, insert_by, is_gt}
use vcode.Types.Workflow.{TaskId}
use vcode.Scheduling.{SchedulableUnit}
use vcode.Scheduling.Priority.Claims.{claimants, times}
use vcode.Scheduling.Priority.Keys.{SharesPath}

-- As many elements, and the same.
abbrev pub Like : List TaskId → List TaskId → Type 0
Like xs ys = (length xs ≡ length ys) × ((t : TaskId) → Memᴰ t xs ↔ Memᴰ t ys)

Like-trans : (xs ys zs : List TaskId) → Like xs ys → Like ys zs → Like xs zs
Like-trans xs ys zs (n, f) (m, g) =
    (n ∙ m, λ t. (λ k. (g t).0 ((f t).0 k), λ k. (f t).1 ((g t).1 k)))

Like-append : (xs ys zs : List TaskId) → Like ys zs → Like (xs ++ ys) (xs ++ zs)
Like-append xs ys zs (n, f) = (
  omega (arith, length-append xs ys, length-append xs zs, n),
  λ t.
      let left = Memᴰ-append t xs ys in
      let right = Memᴰ-append t xs zs in
      (
        λ k. right.1 (⊎_elim (λ m. inl m) (λ m. inr ((f t).0 m)) (left.0 k)),
        λ k. left.1 (⊎_elim (λ m. inl m) (λ m. inr ((f t).1 m)) (right.0 k)),
      ),
)

Like-swap : (xs ys zs : List TaskId) → Like (xs ++ (ys ++ zs)) (ys ++ (xs ++ zs))
Like-swap xs ys zs = (
  omega (
    arith,
    length-append xs (ys ++ zs),
    length-append ys zs,
    length-append ys (xs ++ zs),
    length-append xs zs,
  ),
  λ t. (there t xs ys, there t ys xs),
)
  where
    there :
        (t : TaskId) (ls rs : List TaskId) → Memᴰ t (ls ++ (rs ++ zs)) → Memᴰ t (rs ++ (ls ++ zs))
    there t ls rs k =
        ⊎_elim (λ m. (Memᴰ-append t rs (ls ++ zs)).1 (inr ((Memᴰ-append t ls zs).1 (inl m))))
          (λ m.
            ⊎_elim (λ n. (Memᴰ-append t rs (ls ++ zs)).1 (inl n))
              (λ n. (Memᴰ-append t rs (ls ++ zs)).1 (inr ((Memᴰ-append t ls zs).1 (inr n))))
              ((Memᴰ-append t rs zs).0 m))
          ((Memᴰ-append t ls (rs ++ zs)).0 k)

own : String → SchedulableUnit → List TaskId
own p (SchedulableUnit.task t feature_id at) = times p t.id (or_else t.reserved_write_paths [])
own p (SchedulableUnit.feature_phase f phase at) = []

claimants-own :
    (p : String) (u : SchedulableUnit) (us : List SchedulableUnit)
    → claimants p (u ∷ us) ≡ own p u ++ claimants p us
unfolding claimants own
claimants-own p (SchedulableUnit.task t feature_id at) us = refl
claimants-own p (SchedulableUnit.feature_phase f phase at) us = refl

module _ (p : String) (cmp : SchedulableUnit → SchedulableUnit → Ordering) where
  insert_by-Like :
      (x : SchedulableUnit) (us : List SchedulableUnit)
      → Like (claimants p (insert_by cmp x us)) (own p x ++ claimants p us)
  unfolding insert_by
  insert_by-Like x [] = rw (claimants-own p x []) (refl, λ t. (λ k. k, λ k. k))
  insert_by-Like x (y ∷ ys) = elim (Bool-cases (is_gt (cmp x y))) [
    | inl late ↦
        rw (late, claimants-own p y (insert_by cmp x ys), claimants-own p y ys)
          (Like-trans _ _ _ (Like-append (own p y) _ _ (insert_by-Like x ys))
            (Like-swap (own p y) (own p x) (claimants p ys)))
    | inr now ↦ rw (now, claimants-own p x (y ∷ ys)) (refl, λ t. (λ k. k, λ k. k))
  ]

  pub sort_by-Like :
      (us : List SchedulableUnit) → Like (claimants p (sort_by cmp us)) (claimants p us)
  unfolding sort_by
  sort_by-Like [] = (refl, λ t. (λ k. k, λ k. k))
  sort_by-Like (u ∷ us) = rw (claimants-own p u us) (
      Like-trans _ _ _ (insert_by-Like u (sort_by cmp us))
        (Like-append (own p u) _ _ (sort_by-Like us)))

-- Sharing a path does not depend on the order of the units.
pub SharesPath-sort_by :
    (cmp : SchedulableUnit → SchedulableUnit → Ordering) (us : List SchedulableUnit)
    (u : SchedulableUnit)
    → SharesPath us u ↔ SharesPath (sort_by cmp us) u
SharesPath-sort_by cmp us (SchedulableUnit.feature_phase f phase at) = (λ no. no, λ no. no)
SharesPath-sort_by cmp us (SchedulableUnit.task t feature_id at) = (
  λ (p, k, l). let (n, same) = sort_by-Like p cmp us in (p, (same t.id).1 k, omega (arith, n, l)),
  λ (p, k, l). let (n, same) = sort_by-Like p cmp us in (p, (same t.id).0 k, omega (arith, n, l)),
)
