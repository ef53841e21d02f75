-- ===== src/Graph/Queries/Laws.antt =====
-- What `readyFeatures`, `readyTasks` and `isComplete` of src/core/graph/queries.ts answer.
use vcode.Base.{
  ◌≡◌, ◌≢◌, refl, ◌↔◌, ◌⊎◌, arith, String, true, Option, none, some, Memᴰ, mem-keep, all_iff,
}
use vcode.Base.Dict.{Dict, get, values}
use vcode.Types.Workflow.{
  FeatureCollabControl, TaskStatus, TaskCollabControl, executing, awaiting_merge, summarizing,
  work_complete, branch_open, suspended, ready,
}
use vcode.Types.Domain.{Feature, Task}
use vcode.Graph.Store.{Graph}
use vcode.Graph.Queries.{
  is_complete_feature, is_done_task, is_ready_feature, ready_features, feature_lets_run,
  is_ready_task, ready_tasks,
}

-- A feature whose work is complete and merged.
abbrev pub IsDone : Feature → Type 0
IsDone f = (f.work_control ≡ work_complete) × (f.collab_control ≡ FeatureCollabControl.merged)

complete_iff :
    (o : Option Feature)
    → (is_complete_feature o ≡ true) ↔ ((f : Feature) × (o ≡ some f) × IsDone f)
complete_iff none = (λ h. cc, λ (f, e, d). cc)
complete_iff (some f) = (λ h. (f, refl, ground arith), λ (x, e, d). ground arith)

done_task_iff :
    (o : Option Task)
    → (is_done_task o ≡ true) ↔ ((t : Task) × (o ≡ some t) × (t.status ≡ TaskStatus.done))
done_task_iff none = (λ h. cc, λ (t, e, d). cc)
done_task_iff (some t) = (λ h. (t, refl, ground arith), λ (x, e, d). ground arith)

-- The phase of the feature has an agent to run, its branch is at rest (in `summarizing` it may be
-- merged), nothing blocks it, and each of its dependencies is there, complete and merged.
pub record FeatureIsReady (features : Dict Feature) (f : Feature) : Type 0 where
  pub phase :
      (f.work_control ≢ executing)
      × (f.work_control ≢ awaiting_merge)
      × (f.work_control ≢ work_complete)
  pub branch :
      (f.collab_control ≡ FeatureCollabControl.none)
      ⊎ (f.collab_control ≡ branch_open)
      ⊎ ((f.collab_control ≡ FeatureCollabControl.merged) × (f.work_control ≡ summarizing))
  pub unblocked : f.runtime_blocked_by_feature_id ≡ none
  pub deps :
      (d : String) → Memᴰ d f.depends_on → (x : Feature) × (get d features ≡ some x) × IsDone x

feature_test :
    (features : Dict Feature) (f : Feature)
    → (is_ready_feature features f ≡ true) ↔ FeatureIsReady features f
unfolding is_ready_feature
feature_test features f =
    let deps = all_iff (λ d. is_complete_feature (get d features)) f.depends_on in
    (
      λ h. record {
        phase = ground arith;
        branch = ground arith;
        unblocked = ground arith;
        deps = λ d m. (complete_iff (get d features)).0 (deps.0 (ground arith) d m);
      },
      λ r.
          let all_done = deps.1 (λ d m. (complete_iff (get d features)).1 (r.deps d m)) in
          ground arith,
    )

-- `readyFeatures` lists exactly the features of the graph that are ready in the sense of
-- `FeatureIsReady`.
pub mem-ready_features :
    (g : Graph) (f : Feature)
    → Memᴰ f (ready_features g) ↔ (Memᴰ f (values g.features) × FeatureIsReady g.features f)
unfolding ready_features
mem-ready_features g f =
    let kept = mem-keep (is_ready_feature g.features) f (values g.features) in
    let test = feature_test g.features f in
    (
      λ m. let (listed, ok) = kept.0 m in (listed, test.0 ok),
      λ (listed, r). kept.1 (listed, test.1 r),
    )

-- The task is `ready` and neither suspended nor in conflict, its feature is there, not cancelled and
-- not blocked, and each of its dependencies is there and done.
pub record TaskIsReady (features : Dict Feature) (tasks : Dict Task) (t : Task) : Type 0 where
  pub status : t.status ≡ ready
  pub free : (t.collab_control ≢ suspended) × (t.collab_control ≢ TaskCollabControl.conflict)
  pub feature :
      (f : Feature) × (get t.feature_id features ≡ some f)
      × (f.collab_control ≢ FeatureCollabControl.cancelled)
      × (f.runtime_blocked_by_feature_id ≡ none)
  pub deps :
      (d : String)
      → Memᴰ d t.depends_on
      → (x : Task) × (get d tasks ≡ some x) × (x.status ≡ TaskStatus.done)

lets_run_iff :
    (o : Option Feature)
    → (feature_lets_run o ≡ true) ↔ (
        (f : Feature) × (o ≡ some f)
        × (f.collab_control ≢ FeatureCollabControl.cancelled)
        × (f.runtime_blocked_by_feature_id ≡ none))
lets_run_iff none = (λ h. cc, λ (f, e, d, b). cc)
lets_run_iff (some f) =
    (λ h. (f, refl, ground arith, ground arith), λ (x, e, live, free). ground arith)

task_test :
    (features : Dict Feature) (tasks : Dict Task) (t : Task)
    → (is_ready_task features tasks t ≡ true) ↔ TaskIsReady features tasks t
unfolding is_ready_task
task_test features tasks t =
    let deps = all_iff (λ d. is_done_task (get d tasks)) t.depends_on in
    let lets = lets_run_iff (get t.feature_id features) in
    (
      λ h. record {
        status = ground arith;
        free = ground arith;
        feature = lets.0 (ground arith);
        deps = λ d m. (done_task_iff (get d tasks)).0 (deps.0 (ground arith) d m);
      },
      λ r.
          let all_done = deps.1 (λ d m. (done_task_iff (get d tasks)).1 (r.deps d m)) in
          let may_run = lets.1 r.feature in ground arith,
    )

-- `readyTasks` lists exactly the tasks of the graph that are ready in the sense of `TaskIsReady`.
pub mem-ready_tasks :
    (g : Graph) (t : Task)
    → Memᴰ t (ready_tasks g) ↔ (Memᴰ t (values g.tasks) × TaskIsReady g.features g.tasks t)
unfolding ready_tasks
mem-ready_tasks g t =
    let kept = mem-keep (is_ready_task g.features g.tasks) t (values g.tasks) in
    let test = task_test g.features g.tasks t in
    (
      λ m. let (listed, ok) = kept.0 m in (listed, test.0 ok),
      λ (listed, r). kept.1 (listed, test.1 r),
    )
