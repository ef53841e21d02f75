-- ===== src/Scheduling/Priority/Exact.antt =====
-- Which units `prioritizeReadyWork` of src/core/scheduling/index.ts returns.
use mathlib.Core.List.Memᴰ
use vcode.Base.{
  ℕ, String, ◌≡◌, refl, subst, ap, ◌∙◌, ◌↔◌, ◌⊎◌, inl, inr, ⊎_elim, arith, true, false, Bool, not,
  List, [], ◌∷◌, map, keep, Option, none, some, Ordering, Memᴰ, Memᴰ-append, mem-keep,
}
use vcode.Base.Dict.{Dict, values}
use vcode.Base.Sort.{mem-sort_by}
use Prim.Native.String.{◌++◌ as ◌++ˢ◌}
use vcode.Types.Runs.{run_status_eq}
use vcode.Types.Domain.{Feature, Task}
use vcode.Graph.Store.{Graph}
use vcode.Graph.Queries.{ready_tasks, ready_features}
use vcode.Graph.Queries.Laws.{FeatureIsReady, TaskIsReady, mem-ready_features, mem-ready_tasks}
use vcode.Scheduling.{
  SchedulableUnit, GraphMetrics, is_blocked_by_run, work_control_to_agent_run_phase, phase_name,
}
use vcode.Scheduling.Priority.{
  ExecutionRunReader, ready_at_of, task_unit, feature_unit, run_holds, collect_units, compare_units,
  ranking_of, prioritize_ready_work,
}
use vcode.Scheduling.Priority.Due.{
  Holds, NoRun, KeptTime, DueTask, DueFeature, no_wait, no_hold, kept_time, phase_name_of,
  PhaseOf-is,
}

not-true : (b : Bool) → not b ≡ true → b ≡ false
not-true b h = ground arith

mem-map :
    {A B : Type 0} (f : A → B) (b : B) (xs : List A)
    → Memᴰ b (map f xs) ↔ ((a : A) × Memᴰ a xs × (b ≡ f a))
mem-map f b [] = (λ m. absurd (Memᴰ.not-nil m), λ (a, m, e). absurd (Memᴰ.not-nil m))
mem-map f b (x ∷ xs) = (
  λ m. elim (Memᴰ.cases_cons m) [
    | inl same ↦ (x, Memᴰ.head refl, same)
    | inr later ↦ let (a, k, e) = (mem-map f b xs).0 later in (a, Memᴰ.tail k, e)
  ],
  λ (a, m, e). elim (Memᴰ.cases_cons m) [
    | inl same ↦ Memᴰ.head (e ∙ ap f same)
    | inr later ↦ Memᴰ.tail ((mem-map f b xs).1 (a, later, e))
  ],
)

module _ (g : Graph) (runs : ExecutionRunReader) (now : ℕ) (since : Option (Dict ℕ))
    (u : SchedulableUnit) where
  ListedTask : Type 0
  ListedTask =
      (t : Task) × Memᴰ t (values g.tasks)
      × TaskIsReady g.features g.tasks t
      × (is_blocked_by_run (runs t.id none) now ≡ false)
      × (u ≡ task_unit since now t)

  ListedFeature : Type 0
  ListedFeature =
      (f : Feature) × Memᴰ f (values g.features)
      × FeatureIsReady g.features f
      × (run_holds (runs f.id (some (work_control_to_agent_run_phase f.work_control))) now ≡ false)
      × (u ≡ feature_unit since now f)

  abbrev lets_task : Task → Bool
  lets_task t = not (is_blocked_by_run (runs t.id none) now)

  abbrev lets_feature : Feature → Bool
  lets_feature f =
      not (run_holds (runs f.id (some (work_control_to_agent_run_phase f.work_control))) now)

  mem-task_units : Memᴰ u (map (task_unit since now) (keep lets_task (ready_tasks g))) ↔ ListedTask
  unfolding ListedTask
  mem-task_units = (
    λ m.
        let (t, k, e) = (mem-map (task_unit since now) u (keep lets_task (ready_tasks g))).0 m in
        let (listed, free) = (mem-keep lets_task t (ready_tasks g)).0 k in
        let (there, is) = (mem-ready_tasks g t).0 listed in (t, there, is, not-true _ free, e),
    λ (t, there, is, free, e).
        (mem-map (task_unit since now) u (keep lets_task (ready_tasks g))).1 (
          t,
          (mem-keep lets_task t (ready_tasks g)).1
              ((mem-ready_tasks g t).1 (there, is), rw free refl),
          e,
        ),
  )

  mem-feature_units :
      Memᴰ u (map (feature_unit since now) (keep lets_feature (ready_features g))) ↔ ListedFeature
  unfolding ListedFeature
  mem-feature_units = (
    λ m.
        let (f, k, e) =
          (mem-map (feature_unit since now) u (keep lets_feature (ready_features g))).0 m in
        let (listed, free) = (mem-keep lets_feature f (ready_features g)).0 k in
        let (there, is) = (mem-ready_features g f).0 listed in (f, there, is, not-true _ free, e),
    λ (f, there, is, free, e).
        (mem-map (feature_unit since now) u (keep lets_feature (ready_features g))).1 (
          f,
          (mem-keep lets_feature f (ready_features g)).1
              ((mem-ready_features g f).1 (there, is), rw free refl),
          e,
        ),
  )

  mem-collect_units : Memᴰ u (collect_units g runs now since) ↔ (ListedTask ⊎ ListedFeature)
  unfolding collect_units ListedTask ListedFeature
  mem-collect_units =
      let both =
        Memᴰ-append u (map (task_unit since now) (keep lets_task (ready_tasks g)))
          (map (feature_unit since now) (keep lets_feature (ready_features g))) in
      (
        λ m. ⊎_elim (λ k. inl (mem-task_units.0 k)) (λ k. inr (mem-feature_units.0 k)) (both.0 m),
        λ d. both.1 (⊎_elim (λ k. inl (mem-task_units.1 k)) (λ k. inr (mem-feature_units.1 k)) d),
      )

module _ (g : Graph) (runs : ExecutionRunReader) (now : ℕ) (since : Option (Dict ℕ))
    (u : SchedulableUnit) where
  task_iff : ListedTask g runs now since u ↔ DueTask g runs now since u
  unfolding ListedTask
  task_iff = (
    λ (t, there, is, free, e).
        let key = "task:" ++ˢ t.id in
        (
          t,
          ready_at_of since key now,
          there,
          is,
          (no_wait now (runs t.id none)).0 free,
          (kept_time since key now (ready_at_of since key now)).0 refl,
          e,
        ),
    λ (t, at, there, is, free, time, e). (
      t,
      there,
      is,
      (no_wait now (runs t.id none)).1 free,
      e
          ∙ ap (SchedulableUnit.task t t.feature_id)
              ((kept_time since ("task:" ++ˢ t.id) now at).1 time),
    ),
  )

  feature_iff : ListedFeature g runs now since u ↔ DueFeature g runs now since u
  unfolding ListedFeature
  feature_iff = (
    λ (f, there, is, free, e).
        let phase = work_control_to_agent_run_phase f.work_control in
        let key = "feature:" ++ˢ f.id ++ˢ ":" ++ˢ phase_name phase in
        let (executes, awaits, completes) = is.phase in
        (
          f,
          phase,
          phase_name phase,
          ready_at_of since key now,
          there,
          is,
          phase_name_of f.work_control executes awaits completes,
          (no_hold now (runs f.id (some phase))).0 free,
          (kept_time since key now (ready_at_of since key now)).0 refl,
          e,
        ),
    λ (f, phase, name, at, there, is, named, free, time, e).
        let (is_phase, is_name) = PhaseOf-is named in
        let w = work_control_to_agent_run_phase f.work_control in
        let free' = subst (λ p. NoRun (Holds now) (runs f.id (some p))) is_phase free in
        let time' =
          subst (λ n. KeptTime since ("feature:" ++ˢ f.id ++ˢ ":" ++ˢ n) now at) is_name time in
        let e' = subst (λ p. u ≡ SchedulableUnit.feature_phase f p at) is_phase e in
        (
          f,
          there,
          is,
          (no_hold now (runs f.id (some w))).1 free',
          e'
              ∙ ap (SchedulableUnit.feature_phase f w)
                  ((kept_time since ("feature:" ++ˢ f.id ++ˢ ":" ++ˢ phase_name w) now at).1 time'),
        ),
  )

-- `prioritizeReadyWork` returns exactly the units of two kinds: a task that is ready without a run that
-- waits for a person or for a time to come, and the phase of a feature that is ready without a run of
-- that phase that is under way, has failed or waits; each with the time that is kept under its key, or
-- the present time.
pub mem-prioritize :
    (locale_compare : String → String → Ordering) (g : Graph) (runs : ExecutionRunReader)
    (metrics : GraphMetrics) (now : ℕ) (since : Option (Dict ℕ)) (u : SchedulableUnit)
    → Memᴰ u (prioritize_ready_work locale_compare g runs metrics now since)
      ↔ (DueTask g runs now since u ⊎ DueFeature g runs now since u)
unfolding prioritize_ready_work
mem-prioritize locale_compare g runs metrics now since u =
    let us = collect_units g runs now since in
    let sorted =
      mem-sort_by (compare_units locale_compare (ranking_of locale_compare g metrics us)) u us in
    let collected = mem-collect_units g runs now since u in
    let by_task = task_iff g runs now since u in
    let by_feature = feature_iff g runs now since u in
    (
      λ m. ⊎_elim (λ t. inl (by_task.0 t)) (λ f. inr (by_feature.0 f)) (collected.0 (sorted.0 m)),
      λ d. sorted.1 (collected.1 (⊎_elim (λ t. inl (by_task.1 t)) (λ f. inr (by_feature.1 f)) d)),
    )
