-- ===== src/Graph/Search/Correct.antt =====
-- The search answers `true` exactly when there is a path.
use mathlib.Core.List.Memᴰ
use vcode.Base.{
  mem_of_eq, ◌∙◌, ap, ℕ, zero, suc, ◌≡◌, ◌≢◌, refl, subst, ◌↔◌, ◌⊎◌, inl, inr, ⊎_elim, arith,
  String, true, false, List, [], ◌∷◌, some, ◌==◌, string_eq, includes, add_to_set, includes_iff,
  mem-add_to_set, Memᴰ, Memᴰ-cons, Bool-cases, eq_of_beq, ne_of_beq,
}
use vcode.Graph.Search.{Successors, nexts, push_all, search, has_path_via_successors}
use vcode.Graph.Search.Fuel.{search_answers}

-- The paths of the index, of any length.
pub data Reaches (s : Successors) (u : String) : String → Type 0 where
  here : Reaches s u u
  step : {v w : String} → Reaches s u v → Memᴰ w (nexts v s) → Reaches s u w

pub Reaches-trans :
    {s : Successors} {u v w : String} → Reaches s u v → Reaches s v w → Reaches s u w
Reaches-trans p here = p
Reaches-trans p (step q e) = step (Reaches-trans p q) e

mem-push_all :
    (w : String) (xs stack : List String) → Memᴰ w (push_all xs stack) ↔ (Memᴰ w xs ⊎ Memᴰ w stack)
unfolding push_all
mem-push_all w [] stack = (inr, ⊎_elim (λ m. absurd (Memᴰ.not-nil m)) (λ m. m))
mem-push_all w (x ∷ xs) stack =
    ground (arith, mem-push_all w xs (x ∷ stack), Memᴰ-cons w x xs, Memᴰ-cons w x stack)

search_sound :
    (fuel : ℕ) (from to : String) (s : Successors) (visited stack : List String)
    → ((u : String) → Memᴰ u stack → Reaches s from u)
    → search fuel to s visited stack ≡ some true
    → Reaches s from to
unfolding search
search_sound zero from to s visited stack inv h = cc
search_sound (suc fuel) from to s visited [] inv h = cc
search_sound (suc fuel) from to s visited (c ∷ stack) inv h = elim (Bool-cases (c == to)) [
  | inl found ↦ subst (Reaches s from) (eq_of_beq c to found) (inv c (Memᴰ.head refl))
  | inr other ↦ elim (Bool-cases (includes c visited)) [
    | inl old ↦
        search_sound fuel from to s visited stack (λ u m. inv u (Memᴰ.tail m))
          (rw (other, old) at h)
    | inr new ↦
        search_sound fuel from to s (add_to_set c visited) (push_all (nexts c s) stack)
          (λ u m.
            ⊎_elim (λ e. step (inv c (Memᴰ.head refl)) e) (λ k. inv u (Memᴰ.tail k))
              ((mem-push_all u (nexts c s) stack).0 m))
          (rw (other, new) at h)
  ]
]

-- Every visited node has been expanded, and none is the target.
record IsClosed (to : String) (s : Successors) (visited stack : List String) : Type 0 where
  expanded : (u w : String) → Memᴰ u visited → Memᴰ w (nexts u s) → Memᴰ w visited ⊎ Memᴰ w stack
  missed : (u : String) → Memᴰ u visited → u ≢ to

closed_misses :
    (to : String) (s : Successors) (visited : List String)
    → IsClosed to s visited []
    → (u : String) → Memᴰ u visited
    → {v : String} → Reaches s u v
    → Memᴰ v visited
closed_misses to s visited c u m here = m
closed_misses to s visited c u m (step {v} {w} p e) =
    ⊎_elim (λ k. k) (λ k. absurd (Memᴰ.not-nil k))
      (c.expanded v w (closed_misses to s visited c u m p) e)

skip-IsClosed :
    (to : String) (s : Successors) (visited stack : List String) (c : String)
    → IsClosed to s visited (c ∷ stack)
    → Memᴰ c visited
    → IsClosed to s visited stack
skip-IsClosed to s visited stack c inv m = record {
  expanded = λ u w mu e.
      ground (arith, inv.expanded u w mu e, Memᴰ-cons w c stack, λ (q : w ≡ c). mem_of_eq q m);
  missed = inv.missed;
}

expand-IsClosed :
    (to : String) (s : Successors) (visited stack : List String) (c : String)
    → IsClosed to s visited (c ∷ stack)
    → c ≢ to
    → IsClosed to s (add_to_set c visited) (push_all (nexts c s) stack)
expand-IsClosed to s visited stack c inv ne = record {
  expanded = λ u w mu e. ground (
    arith,
    mem-add_to_set c u visited,
    mem-add_to_set c w visited,
    mem-push_all w (nexts c s) stack,
    Memᴰ-cons w c stack,
    inv.expanded u w,
    λ (q : u ≡ c). subst (λ v. Memᴰ w (nexts v s)) q e,
  );
  missed = λ u mu. ground (arith, mem-add_to_set c u visited, inv.missed u);
}

search_complete :
    (fuel : ℕ) (to : String) (s : Successors) (visited stack : List String)
    → IsClosed to s visited stack
    → search fuel to s visited stack ≡ some false
    → (u : String) → Memᴰ u visited ⊎ Memᴰ u stack
    → ¬ Reaches s u to
unfolding search
search_complete zero to s visited stack inv h u m p = cc
search_complete (suc fuel) to s visited [] inv h u (inl m) p =
    inv.missed to (closed_misses to s visited inv u m p) refl
search_complete (suc fuel) to s visited [] inv h u (inr m) p = Memᴰ.not-nil m
search_complete (suc fuel) to s visited (c ∷ stack) inv h u m p = elim (Bool-cases (c == to)) [
  | inl found ↦ cc (rw found at h)
  | inr other ↦ elim (Bool-cases (includes c visited)) [
    | inl old ↦
        search_complete fuel to s visited stack
          (skip-IsClosed to s visited stack c inv ((includes_iff c visited).0 old))
          (rw (other, old) at h) u (still u m ((includes_iff c visited).0 old)) p
    | inr new ↦
        search_complete fuel to s (add_to_set c visited) (push_all (nexts c s) stack)
          (expand-IsClosed to s visited stack c inv (ne_of_beq c to other)) (rw (other, new) at h) u
          (moved u m) p
  ]
]
  where
    still :
        (u : String)
        → Memᴰ u visited ⊎ Memᴰ u (c ∷ stack)
        → Memᴰ c visited
        → Memᴰ u visited ⊎ Memᴰ u stack
    still u m k = ground (arith, Memᴰ-cons u c stack, λ (q : u ≡ c). mem_of_eq q k)

    moved :
        (u : String)
        → Memᴰ u visited ⊎ Memᴰ u (c ∷ stack)
        → Memᴰ u (add_to_set c visited) ⊎ Memᴰ u (push_all (nexts c s) stack)
    moved u m =
        ground
          (arith, mem-add_to_set c u visited, mem-push_all u (nexts c s) stack, Memᴰ-cons u c stack)

-- `hasFeaturePathViaSuccessors` and `hasTaskPathViaSuccessors` answer `true` exactly when the index
-- has a path, possibly empty, from the first id to the second.
pub has_path_iff :
    (from to : String) (s : Successors)
    → (has_path_via_successors from to s ≡ true) ↔ Reaches s from to
has_path_iff from to s = (
  λ h. search_sound _ from to s [] (from ∷ []) starts (search_answers from to s ∙ ap some h),
  λ p. elim (Bool-cases (has_path_via_successors from to s)) [
    | inl found ↦ found
    | inr missed ↦ absurd (
        search_complete _ to s [] (from ∷ []) fresh (search_answers from to s ∙ ap some missed) from
          (inr (Memᴰ.head refl)) p)
  ],
)
  where
    starts : (u : String) → Memᴰ u (from ∷ []) → Reaches s from u
    starts u m = rw (Memᴰ.eq_of_singleton m) here

    fresh : IsClosed to s [] (from ∷ [])
    fresh = record {
      expanded = λ u w m e. absurd (Memᴰ.not-nil m);
      missed = λ u m. absurd (Memᴰ.not-nil m);
    }
