-- ===== src/Scheduling/Metrics/Values.antt =====
-- The metrics of src/core/scheduling/index.ts, node by node.
use mathlib.Core.List.Memᴰ
use vcode.Base.{
  ℕ, zero, suc, ◌+◌, ◌<◌, String, ◌≡◌, ◌≢◌, refl, sym, ap, ◌∙◌, subst, ◌⊎◌, inl, inr, ⊎_elim,
  ne_of_beq, arith, List, [], ◌∷◌, Option, none, some, Option-cases, Bool-cases, ◌==◌, string_eq,
  eq_of_beq, beq_self, or_else, Memᴰ, length,
}
use vcode.Base.Dict.{mem-keys, Dict, get, set, get-set, keys, Every}
use vcode.Scheduling.{NodeMetrics}
use vcode.Scheduling.Metrics.{
  CombinedGraphNode, CombinedGraph, Visit, larger_of, best_over, NodeInfo, memoized, visit_all,
  depth_info, depth_extra, distance_info, distance_extra, metrics_fuel, depth_cache, distance_cache,
  combine_metrics, compute_graph_metrics,
}
use vcode.Scheduling.Metrics.Longest.{
  Solves, best_over-skip, best_over-take, memoized-hit, memoized-gone, memoized-new, memoized-right,
}

-- What is remembered stays.
abbrev Keeps : Dict ℕ → Dict ℕ → Type 0
Keeps cache cache' = (k : String) → get k cache ≢ none → get k cache' ≢ none

present-set : (k j : String) (v : ℕ) (m : Dict ℕ) → get j m ≢ none → get j (set k v m) ≢ none
present-set k j v m there gone = ground (arith, get-set k j v m)

module _ (info : NodeInfo) (extra : String → Option ℕ) where
  best_over-Keeps :
      (visit : Visit) (xs : List String) (best : ℕ) (cache : Dict ℕ)
      → ((x : String) (c : Dict ℕ) → Keeps c (visit x c).1)
      → Keeps cache (best_over visit extra xs best cache).1
  unfolding best_over
  best_over-Keeps visit [] best cache keeps k there = there
  best_over-Keeps visit (x ∷ xs) best cache keeps k there = elim (Option-cases (extra x)) [
    | inl skipped ↦
        rw (best_over-skip visit extra x xs best cache skipped)
          (best_over-Keeps visit xs best cache keeps k there)
    | inr (w, e) ↦ rw (best_over-take visit extra x xs best cache w e) (
        best_over-Keeps visit xs (larger_of best ((visit x cache).0 + w)) (visit x cache).1 keeps k
          (keeps x cache k there))
  ]

  memoized-Keeps :
      (fuel : ℕ) (x : String) (cache : Dict ℕ) → Keeps cache (memoized info extra fuel x cache).1
  unfolding memoized
  memoized-Keeps zero x cache k there = there
  memoized-Keeps (suc fuel) x cache k there = elim (Option-cases (get x cache)) [
    | inr (v, hit) ↦ rw (memoized-hit info extra fuel x cache v hit) there
    | inl miss ↦ elim (Option-cases (info x)) [
      | inl gone ↦ rw (memoized-gone info extra fuel x cache miss gone) there
      | inr ((base, ns), e) ↦ rw (memoized-new info extra fuel x cache base ns miss e) (
          present-set x k _ _
            (best_over-Keeps (memoized info extra fuel) ns 0 cache (memoized-Keeps fuel) k there))
    ]
  ]

  memoized-there :
      (fuel : ℕ) (x : String) (cache : Dict ℕ)
      → info x ≢ none
      → get x (memoized info extra (suc fuel) x cache).1 ≢ none
  memoized-there fuel x cache known = elim (Option-cases (get x cache)) [
    | inr (v, hit) ↦ rw (memoized-hit info extra fuel x cache v hit) (λ gone. cc)
    | inl miss ↦ elim (Option-cases (info x)) [
      | inl gone ↦ absurd (known gone)
      | inr ((base, ns), e) ↦
          rw (memoized-new info extra fuel x cache base ns miss e)
            (rw (get-set, beq_self x) (λ gone. cc))
    ]
  ]

  visit_all-Keeps :
      (fuel : ℕ) (ids : List String) (cache : Dict ℕ)
      → Keeps cache (visit_all (memoized info extra fuel) ids cache)
  unfolding visit_all
  visit_all-Keeps fuel [] cache k there = there
  visit_all-Keeps fuel (id ∷ ids) cache k there =
      visit_all-Keeps fuel ids (memoized info extra fuel id cache).1 k
        (memoized-Keeps fuel id cache k there)

  visit_all-there :
      (fuel : ℕ) (ids : List String) (cache : Dict ℕ) (id : String)
      → info id ≢ none
      → Memᴰ id ids
      → get id (visit_all (memoized info extra (suc fuel)) ids cache) ≢ none
  unfolding visit_all
  visit_all-there fuel [] cache id known m = absurd (Memᴰ.not-nil m)
  visit_all-there fuel (j ∷ ids) cache id known m = elim (Memᴰ.cases_cons m) [
    | inl same ↦ visit_all-Keeps (suc fuel) ids (memoized info extra (suc fuel) j cache).1 id (
        subst (λ i. get id (memoized info extra (suc fuel) i cache).1 ≢ none) same
          (memoized-there fuel id cache known))
    | inr later ↦ visit_all-there fuel ids (memoized info extra (suc fuel) j cache).1 id known later
  ]

  module _ (value : String → ℕ) (solves : Solves info extra value) (rank : String → ℕ)
      (down : (id : String) (base : ℕ) (ns : List String)
        → info id ≡ some (base, ns)
        → (x : String) → Memᴰ x ns
        → rank x < rank id) where
    visit_all-right :
        (fuel : ℕ) (ids : List String) (cache : Dict ℕ)
        → ((id : String) → rank id < fuel)
        → Every (λ id v. v ≡ value id) cache
        → Every (λ id v. v ≡ value id) (visit_all (memoized info extra fuel) ids cache)
    unfolding visit_all
    visit_all-right fuel [] cache low ok = ok
    visit_all-right fuel (id ∷ ids) cache low ok =
        visit_all-right fuel ids (memoized info extra fuel id cache).1 low
          (memoized-right info extra value solves rank down fuel id cache (low id) ok).1

    -- What a pass remembers of a node is its value.
    pub visit_all-value :
        (fuel : ℕ) (ids : List String) (id : String)
        → ((x : String) → rank x < suc fuel)
        → info id ≢ none
        → Memᴰ id ids
        → or_else (get id (visit_all (memoized info extra (suc fuel)) ids [])) 0 ≡ value id
    unfolding get
    visit_all-value fuel ids id low known m =
        elim (Option-cases (get id (visit_all (memoized info extra (suc fuel)) ids []))) [
          | inl gone ↦ absurd (visit_all-there fuel ids [] id known m gone)
          | inr (v, e) ↦ rw e (visit_all-right (suc fuel) ids [] low (λ k x q. cc) id v e)
        ]

get-combine :
    (depths distances : Dict ℕ) (ids : List String) (metrics : Dict NodeMetrics) (id : String)
    → Memᴰ id ids
      ⊎ (get id metrics
          ≡ some (record {
            max_depth = or_else (get id depths) 0;
            distance = or_else (get id distances) 0;
          }))
    → get id (combine_metrics depths distances ids metrics)
      ≡ some (record {
        max_depth = or_else (get id depths) 0;
        distance = or_else (get id distances) 0;
      })
unfolding combine_metrics
get-combine depths distances [] metrics id (inl m) = absurd (Memᴰ.not-nil m)
get-combine depths distances [] metrics id (inr e) = e
get-combine depths distances (j ∷ ids) metrics id h =
    get-combine depths distances ids _ id (elim (Bool-cases (j == id)) [
      | inl same ↦ inr (rw (get-set, same) (ap (λ i. entry i) (eq_of_beq j id same)))
      | inr other ↦
          ⊎_elim
            (λ m. elim (Memᴰ.cases_cons m) [
              | inl first ↦ absurd (ne_of_beq j id other (sym first))
              | inr later ↦ inl later
            ])
            (λ e. inr (rw (get-set, other) e)) h
    ])
  where
    entry : String → Option NodeMetrics
    entry i =
        some
          (record { max_depth = or_else (get i depths) 0; distance = or_else (get i distances) 0 })

-- The nodes in an order in which each comes after those that it asks for, given by their places.
pub record IsNumbering (info : NodeInfo) (graph : CombinedGraph) (place : String → ℕ) : Type 0 where
  pub down :
      (id : String) (base : ℕ) (ns : List String)
      → info id ≡ some (base, ns)
      → (x : String) → Memᴰ x ns
      → place x < place id
  pub low : (id : String) → place id < metrics_fuel graph

-- For a combined graph without cycles, given by an order of the nodes along the successors and one along
-- the predecessors, `computeGraphMetrics` does not run out of fuel: the depth of a node is its weight
-- with the largest depth of a successor, and its distance the largest sum of distance and weight of a
-- predecessor, where nodes that are not there count nothing.
pub compute_graph_metrics-Solves :
    (graph : CombinedGraph) (depth distance : String → ℕ) (along against : String → ℕ)
    → Solves (depth_info graph) depth_extra depth
    → Solves (distance_info graph) (distance_extra graph) distance
    → IsNumbering (depth_info graph) graph along
    → IsNumbering (distance_info graph) graph against
    → (id : String) (n : CombinedGraphNode) → get id graph.nodes ≡ some n
    → get id (compute_graph_metrics graph).node_metrics
      ≡ some (record { max_depth = depth id; distance = distance id })
unfolding compute_graph_metrics
compute_graph_metrics-Solves graph depth distance along against ds ss an gn id n at =
    let listed = mem-keys id graph.nodes (λ gone. cc) in
    let deep =
      visit_all-value (depth_info graph) depth_extra depth ds along an.down (length graph.nodes)
        (keys graph.nodes) id an.low (λ gone. cc (rw at at gone)) listed in
    let far =
      visit_all-value (distance_info graph) (distance_extra graph) distance ss against gn.down
        (length graph.nodes) (keys graph.nodes) id gn.low (λ gone. cc (rw at at gone)) listed in
    get-combine (depth_cache graph) (distance_cache graph) (keys graph.nodes) [] id (inl listed)
    ∙ rw (deep, far) refl
