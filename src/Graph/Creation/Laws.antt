-- ===== src/Graph/Creation/Laws.antt =====
-- What the creations of src/core/graph/creation.ts keep.
use mathlib.Core.List.Memᴰ
use vcode.Base.{
  ℕ, String, ◌≡◌, ◌≢◌, refl, sym, ◌∙◌, subst, ◌↔◌, ◌⊎◌, inl, inr, arith, false, List, [], ◌∷◌, none,
  some, Memᴰ, Memᴰ-cons, string_eq, includes, includes_iff, Option-cases, eq_iff, or_else,
}
use vcode.Base.Dict.{Dict, get, set, get-set, values}
use vcode.Base.Results.{ok}
use vcode.Types.Domain.{Feature, Task}
use vcode.Graph.Search.{Successors, nexts}
use vcode.Graph.Search.Correct.{Reaches, here, step}
use vcode.Graph.Store.{Graph, link, mem-nexts-link}
use vcode.Graph.Index.{IsIndexOf, IsAcyclic, link-IsAcyclic}
use vcode.Graph.Invariant.{IsWellFormed, DepsKnown, IsKnown, deps_in, deps_in-set, listed}
use vcode.Graph.Creation.{
  CreateFeatureOptions, CreateTaskOptions, check_feature_deps, check_task_deps, link_all,
  next_feature_order, next_task_order, new_feature, new_task, create_feature, create_task,
}

mem-nexts-link_all :
    (id u w : String) (deps : List String) (s : Successors)
    → Memᴰ w (nexts u (link_all id deps s)) ↔ (Memᴰ w (nexts u s) ⊎ (Memᴰ u deps × (w ≡ id)))
unfolding link_all
mem-nexts-link_all id u w [] s = ground (arith, λ (m : Memᴰ u []). Memᴰ.not-nil m)
mem-nexts-link_all id u w (dep ∷ deps) s = ground (
  arith,
  mem-nexts-link_all id u w deps (link dep id s),
  mem-nexts-link dep id u w s,
  Memᴰ-cons u dep deps,
)

-- A node without successors reaches itself only.
sink-Reaches :
    (s : Successors) (id : String)
    → ((w : String) → ¬ Memᴰ w (nexts id s))
    → {v : String} → Reaches s id v
    → v ≡ id
sink-Reaches s id sink here = refl
sink-Reaches s id sink (step {v} {w} p e) =
    absurd (sink w (subst (λ x. Memᴰ w (nexts x s)) (sink-Reaches s id sink p) e))

link_all-IsAcyclic :
    (id : String) (deps : List String) (s : Successors)
    → ((w : String) → ¬ Memᴰ w (nexts id s))
    → ¬ Memᴰ id deps
    → IsAcyclic s
    → IsAcyclic (link_all id deps s)
unfolding link_all
link_all-IsAcyclic id [] s sink fresh acyclic = acyclic
link_all-IsAcyclic id (dep ∷ deps) s sink fresh acyclic =
    link_all-IsAcyclic id deps (link dep id s) still (λ m. fresh (Memᴰ.tail m))
      (link-IsAcyclic dep id s acyclic (λ p. other (sink-Reaches s id sink p)))
  where
    other : dep ≢ id
    other e = fresh (Memᴰ.head (sym e))

    still : (w : String) → ¬ Memᴰ w (nexts id (link dep id s))
    still w m =
        ground (arith, mem-nexts-link dep id id w s, sink w, λ (q : id ≡ dep). other (sym q))

-- A new node with dependencies that are there, among which it is not itself.
module _ {V : Type 0} (field : V → List String) (m : Dict V) (s : Successors) (id : String) (x : V)
    (fresh : get id m ≡ none) (no_self : ¬ Memᴰ id (field x))
    (there : (d : String) → Memᴰ d (field x) → get d m ≢ none)
    (index : IsIndexOf s (deps_in field m)) (known : IsKnown field m) where
  pub new-sink : (w : String) → ¬ Memᴰ w (nexts id s)
  new-sink w e = known w id ((index id w).0 e) fresh

  pub new-IsAcyclic : IsAcyclic s → IsAcyclic (link_all id (field x) s)
  new-IsAcyclic = link_all-IsAcyclic id (field x) s new-sink no_self

  pub new-IsIndexOf : IsIndexOf (link_all id (field x) s) (deps_in field (set id x m))
  new-IsIndexOf u v = ground (
    arith,
    mem-nexts-link_all id u v (field x) s,
    index u v,
    deps_in-set field id v x m,
    eq_iff id v,
    none_listed,
  )
    where
      none_listed : id ≡ v → ¬ Memᴰ u (deps_in field m v)
      none_listed q k = Memᴰ.not-nil (
          subst (λ o. Memᴰ u (listed field o)) fresh
            (subst (λ j. Memᴰ u (deps_in field m j)) (sym q) k))

  pub new-IsKnown : IsKnown field (set id x m)
  new-IsKnown v u =
      ground (arith, deps_in-set field id v x m, get-set id u x m, eq_iff id v, there u, known v u)

pub create_feature-eq-ok :
    (g h : Graph) (opts : CreateFeatureOptions)
    → create_feature g opts ≡ ok h
    → (get opts.id g.features ≡ none)
      × (check_feature_deps g.features (or_else opts.depends_on []) ≡ ok tt)
      × (includes opts.id (or_else opts.depends_on []) ≡ false)
      × ((n : ℕ) × (h ≡ record g {
        features = set opts.id (new_feature opts n) g.features;
        feature_successors = link_all opts.id (or_else opts.depends_on []) g.feature_successors;
      }))
unfolding create_feature
create_feature-eq-ok g h opts e = (
  ground arith,
  ground arith,
  ground arith,
  (next_feature_order opts.milestone_id 0 (values g.features), ground arith),
)

check_feature_deps-eq-ok :
    (m : Dict Feature) (deps : List String)
    → check_feature_deps m deps ≡ ok tt
    → (d : String) → Memᴰ d deps
    → get d m ≢ none
unfolding check_feature_deps
check_feature_deps-eq-ok m [] e d k = absurd (Memᴰ.not-nil k)
check_feature_deps-eq-ok m (dep ∷ deps) e d k =
    let both : (get dep m ≢ none) × (check_feature_deps m deps ≡ ok tt) = ground arith in
    elim (Memᴰ.cases_cons k) [
      | inl same ↦ subst (λ j. get j m ≢ none) (sym same) both.0
      | inr later ↦ check_feature_deps-eq-ok m deps both.1 d later
    ]

-- A feature that `createFeature` adds keeps both indexes equal to the listed dependencies and free of
-- cycles, and every listed dependency in the graph.
pub create_feature-IsWellFormed :
    (g h : Graph) (opts : CreateFeatureOptions)
    → IsWellFormed g
    → DepsKnown g
    → create_feature g opts ≡ ok h
    → IsWellFormed h × DepsKnown h
create_feature-IsWellFormed g h opts wf known e =
    let (fresh, checked, no_self, (n, same)) = create_feature-eq-ok g h opts e in
    let deps = or_else opts.depends_on [] in
    let x = new_feature opts n in
    let apart : ¬ Memᴰ opts.id deps = λ k. cc (sym ((includes_iff opts.id deps).1 k) ∙ no_self) in
    let there = check_feature_deps-eq-ok g.features deps checked in
    let index = wf.features_indexed in
    let old = known.features_known in
    let s = g.feature_successors in
    subst (λ k. IsWellFormed k × DepsKnown k) (sym same)
      (
        record {
          features_indexed = new-IsIndexOf _ g.features s opts.id x fresh apart there index old;
          features_acyclic =
              new-IsAcyclic _ g.features s opts.id x fresh apart there index old
                wf.features_acyclic;
          tasks_indexed = wf.tasks_indexed;
          tasks_acyclic = wf.tasks_acyclic;
        },
        record {
          features_known = new-IsKnown _ g.features s opts.id x fresh apart there index old;
          tasks_known = known.tasks_known;
        },
      )

pub create_task-eq-ok :
    (g h : Graph) (opts : CreateTaskOptions)
    → create_task g opts ≡ ok h
    → (get opts.id g.tasks ≡ none)
      × (check_task_deps g.tasks opts.feature_id (or_else opts.depends_on []) ≡ ok tt)
      × (includes opts.id (or_else opts.depends_on []) ≡ false)
      × ((f : Feature) × ((n : ℕ) × (h ≡ record g {
        tasks = set opts.id (new_task opts f n) g.tasks;
        task_successors = link_all opts.id (or_else opts.depends_on []) g.task_successors;
      })))
unfolding create_task
create_task-eq-ok g h opts e = elim (Option-cases (get opts.feature_id g.features)) [
  | inl missing ↦ ground arith
  | inr (f, found) ↦ (
    ground arith,
    ground arith,
    ground arith,
    (f, (next_task_order opts.feature_id 0 (values g.tasks), ground arith)),
  )
]

check_task_deps-eq-ok :
    (m : Dict Task) (id : String) (deps : List String)
    → check_task_deps m id deps ≡ ok tt
    → (d : String) → Memᴰ d deps
    → (t : Task) × (get d m ≡ some t) × (t.feature_id ≡ id)
unfolding check_task_deps
check_task_deps-eq-ok m id [] e d k = absurd (Memᴰ.not-nil k)
check_task_deps-eq-ok m id (dep ∷ deps) e d k = elim (Option-cases (get dep m)) [
  | inl missing ↦ ground arith
  | inr (t, found) ↦
      let both : (t.feature_id ≡ id) × (check_task_deps m id deps ≡ ok tt) =
        ground (arith, eq_iff t.feature_id id) in
      elim (Memᴰ.cases_cons k) [
        | inl same ↦ (t, rw same found, both.0)
        | inr later ↦ check_task_deps-eq-ok m id deps both.1 d later
      ]
]

-- A task that `createTask` adds keeps both indexes equal to the listed dependencies and free of
-- cycles, and every listed dependency in the graph.
pub create_task-IsWellFormed :
    (g h : Graph) (opts : CreateTaskOptions)
    → IsWellFormed g
    → DepsKnown g
    → create_task g opts ≡ ok h
    → IsWellFormed h × DepsKnown h
create_task-IsWellFormed g h opts wf known e =
    let (fresh, checked, no_self, (f, (n, same))) = create_task-eq-ok g h opts e in
    let deps = or_else opts.depends_on [] in
    let x = new_task opts f n in
    let apart : ¬ Memᴰ opts.id deps = λ k. cc (sym ((includes_iff opts.id deps).1 k) ∙ no_self) in
    let there : (d : String) → Memᴰ d deps → get d g.tasks ≢ none = λ d k gone.
      cc (sym gone ∙ (check_task_deps-eq-ok g.tasks opts.feature_id deps checked d k).1) in
    let index = wf.tasks_indexed in
    let old = known.tasks_known in
    let s = g.task_successors in
    subst (λ k. IsWellFormed k × DepsKnown k) (sym same)
      (
        record {
          features_indexed = wf.features_indexed;
          features_acyclic = wf.features_acyclic;
          tasks_indexed = new-IsIndexOf _ g.tasks s opts.id x fresh apart there index old;
          tasks_acyclic =
              new-IsAcyclic _ g.tasks s opts.id x fresh apart there index old wf.tasks_acyclic;
        },
        record {
          features_known = known.features_known;
          tasks_known = new-IsKnown _ g.tasks s opts.id x fresh apart there index old;
        },
      )
