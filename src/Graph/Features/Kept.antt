-- ===== src/Graph/Features/Kept.antt =====
-- Cancelling and editing a feature keep the dependencies (src/core/graph/feature-mutations.ts).
use vcode.Base.{
  ℕ, zero, suc, String, ◌≡◌, refl, sym, subst, ◌⊎◌, inl, inr, arith, Bool, List, [], ◌∷◌, Option,
  none, some, Bool-cases, Option-cases, ◌==◌, string_eq,
}
use vcode.Base.Dict.{Dict, get, set}
use vcode.Base.Results.{ok}
use vcode.Types.Workflow.{FeatureId}
use vcode.Types.Domain.{Feature}
use vcode.Graph.Search.{Successors, nexts}
use vcode.Graph.Store.{Graph}
use vcode.Graph.Features.{
  cancelled_feature, cancelled_task, mark_cancelled, cascade_over, cancel_cascade, cancel_feature,
  cancel_fuel, FeatureEditPatch, edited_feature, edit_feature, UsageRollupPatch,
  replace_usage_rollups, map_entries, next_usage,
}
use vcode.Graph.Features.Cancel.{cascade_over-cons}
use vcode.Graph.Side.{IsSide, same-IsSide, IsConsistent, set-IsSide, map-IsSide}

-- What every marking keeps, a cascade keeps.
module _ (P : Graph → Type 0)
    (mark : (g : Graph) (id : FeatureId) (f : Feature)
      → get id g.features ≡ some f
      → P g
      → P (mark_cancelled id f g)) where
  cascade_over-keeps :
      (visit : Graph → FeatureId → Feature → Option Graph)
      → ((g h : Graph) (id : FeatureId) (f : Feature)
          → get id g.features ≡ some f
          → P g
          → visit g id f ≡ some h
          → P h)
      → (ids : List FeatureId) (g h : Graph) → P g
      → cascade_over visit ids g ≡ some h
      → P h
  unfolding cascade_over
  cascade_over-keeps visit keeps [] g h p e = subst P (some_injective e) p
    where
      some_injective : some g ≡ some h → g ≡ h
      some_injective q = cc
  cascade_over-keeps visit keeps (id ∷ ids) g h p e = elim (cascade_over-cons visit id ids g h e) [
    | inl (_, later) ↦ cascade_over-keeps visit keeps ids g h p later
    | inr (f, g1, at, visited, later) ↦
        cascade_over-keeps visit keeps ids g1 h (keeps g g1 id f at p visited) later
  ]

  cascade-keeps :
      (fuel : ℕ) (g h : Graph) (id : FeatureId) (f : Feature)
      → get id g.features ≡ some f
      → P g
      → cancel_cascade fuel g id f ≡ some h
      → P h
  unfolding cancel_cascade
  cascade-keeps zero g h id f at p e = cc
  cascade-keeps (suc fuel) g h id f at p e =
      cascade_over-keeps (cancel_cascade fuel) (cascade-keeps fuel) (nexts id g.feature_successors)
        (mark_cancelled id f g) h (mark g id f at p) e

  pub cancel_feature-keeps :
      (g h : Graph) (id : FeatureId) (cascade : Bool)
      → P g
      → cancel_feature g id cascade ≡ ok h
      → P h
  unfolding cancel_feature
  cancel_feature-keeps g h id cascade p e = elim (Option-cases (get id g.features)) [
    | inl missing ↦ ground arith
    | inr (f, at) ↦ elim (Bool-cases cascade) [
      | inr single ↦ subst P (ground arith) (mark g id f at p)
      | inl all ↦ elim (Option-cases (cancel_cascade (cancel_fuel g) g id f)) [
        | inl stuck ↦ subst P (ground arith) p
        | inr (k, ends) ↦ subst P (ground arith) (cascade-keeps (cancel_fuel g) g k id f at p ends)
      ]
    ]
  ]

mark-IsConsistent :
    (g : Graph) (id : FeatureId) (f : Feature)
    → get id g.features ≡ some f
    → IsConsistent g
    → IsConsistent (mark_cancelled id f g)
unfolding mark_cancelled
mark-IsConsistent g id f at c = record {
  features =
      set-IsSide (λ x. x.depends_on) g.features g.feature_successors id f (cancelled_feature f) at
        refl c.features;
  tasks =
      map-IsSide (λ x. x.depends_on) g.tasks g.task_successors (cancelled_task id)
        (λ t. ground arith) c.tasks;
}

pub cancel_feature-IsConsistent :
    (g h : Graph) (id : FeatureId) (cascade : Bool)
    → IsConsistent g
    → cancel_feature g id cascade ≡ ok h
    → IsConsistent h
cancel_feature-IsConsistent = cancel_feature-keeps IsConsistent mark-IsConsistent

pub edit_feature-eq-ok :
    (g h : Graph) (id : FeatureId) (patch : FeatureEditPatch)
    → edit_feature g id patch ≡ ok h
    → (f : Feature) × (get id g.features ≡ some f)
      × (h ≡ record g { features = set id (edited_feature f patch) g.features })
unfolding edit_feature
edit_feature-eq-ok g h id patch e = ground arith

get-map_entries :
    {V : Type 0} (f : String → V → V) (k : String) (m : Dict V)
    → ((get k m ≡ none) × (get k (map_entries f m) ≡ none))
      ⊎ ((v : V) × (i : String) × (get k m ≡ some v) × (get k (map_entries f m) ≡ some (f i v)))
unfolding get map_entries
get-map_entries f k [] = inl (refl, refl)
get-map_entries f k ((j, v) ∷ m) = elim (Bool-cases (j == k)) [
  | inl same ↦ inr (v, j, rw same refl, rw same refl)
  | inr other ↦ rw other (get-map_entries f k m)
]

entries-IsSide :
    {V : Type 0} (field : V → List String) (m : Dict V) (s : Successors) (f : String → V → V)
    → ((i : String) (x : V) → field (f i x) ≡ field x)
    → IsSide field m s
    → IsSide field (map_entries f m) s
entries-IsSide field m s f same =
    same-IsSide field m (map_entries f m) s
      (λ v. elim (get-map_entries f v m) [
        | inl (a, b) ↦ rw (a, b) refl
        | inr (x, i, a, b) ↦ rw (a, b) (same i x)
      ])
      (λ v gone. elim (get-map_entries f v m) [ inl (a, b) ↦ a | inr (x, i, a, b) ↦ cc ])

pub replace_usage_rollups-IsConsistent :
    (g h : Graph) (patch : UsageRollupPatch)
    → IsConsistent g
    → replace_usage_rollups g patch ≡ ok h
    → IsConsistent h
unfolding replace_usage_rollups
replace_usage_rollups-IsConsistent g h patch c e =
    let same : h ≡ record g {
      features =
          map_entries (λ id f. record f { token_usage = next_usage patch.features id }) g.features;
      tasks = map_entries (λ id t. record t { token_usage = next_usage patch.tasks id }) g.tasks;
    } =
      ground arith in
    subst IsConsistent (sym same) (record {
      features =
          entries-IsSide (λ x. x.depends_on) g.features g.feature_successors _ (λ i x. refl)
            c.features;
      tasks = entries-IsSide (λ x. x.depends_on) g.tasks g.task_successors _ (λ i x. refl) c.tasks;
    })
