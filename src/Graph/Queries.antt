-- ===== src/Graph/Queries.antt =====
-- src/core/graph/queries.ts: what is ready to be worked on, and whether all is done.
pub mod Laws
pub mod Milestones
use vcode.Base.{
  ℕ, Bool, true, false, ◌&&◌, ◌||◌, not, List, [], ◌∷◌, Option, none, some, ◌==◌, ◌!=◌, includes,
  all, keep, is_some, if◌then◌else◌, length, nat_eq, or_else, Ordering,
}
use Prim.Native.Nat.{compare}
use vcode.Base.Sort.{sort_by}
use vcode.Base.Dict.{Dict, get, values}
use vcode.Types.Workflow.{
  FeatureWorkControl, FeatureCollabControl, TaskStatus, TaskCollabControl, FeatureId, TaskId,
  discussing, researching, planning, ci_check, verifying, replanning, summarizing, work_complete,
  merge_queued, integrating, suspended, ready, work_control_eq, feature_collab_eq, task_status_eq,
  task_collab_eq,
}
use vcode.Types.Domain.{Feature, Task, Milestone}
use vcode.Graph.Store.{Graph}

pub record GraphSnapshot : Type 0 where
  pub milestones : List Milestone
  pub features : List Feature
  pub tasks : List Task

unfoldable pub snapshot_graph : Graph → GraphSnapshot
snapshot_graph graph = record {
  milestones = values graph.milestones;
  features = values graph.features;
  tasks = values graph.tasks;
}

abbrev pub dispatchable_feature_phases : List FeatureWorkControl
dispatchable_feature_phases =
    discussing ∷ researching ∷ planning ∷ ci_check ∷ verifying ∷ replanning ∷ summarizing ∷ []

-- `dep.workControl === 'work_complete' && dep.collabControl === 'merged'` of a dependency that is there.
abbrev pub is_complete_feature : Option Feature → Bool
is_complete_feature none = false
is_complete_feature (some f) =
    f.work_control == work_complete && f.collab_control == FeatureCollabControl.merged

abbrev pub is_done_task : Option Task → Bool
is_done_task none = false
is_done_task (some t) = t.status == TaskStatus.done

-- The body of the loop of `readyFeatures`: whether the feature is pushed.
unfoldable pub is_ready_feature : Dict Feature → Feature → Bool
unfolding includes
is_ready_feature features f =
    includes f.work_control dispatchable_feature_phases
    && not (
        f.collab_control == FeatureCollabControl.cancelled
        || f.collab_control == FeatureCollabControl.conflict
        || f.collab_control == merge_queued
        || f.collab_control == integrating
        || is_some f.runtime_blocked_by_feature_id
        || f.collab_control == FeatureCollabControl.merged && f.work_control != summarizing)
    && all (λ d. is_complete_feature (get d features)) f.depends_on

unfoldable pub ready_features : Graph → List Feature
ready_features graph = keep (is_ready_feature graph.features) (values graph.features)

-- The feature of a task lets it run.
abbrev pub feature_lets_run : Option Feature → Bool
feature_lets_run none = false
feature_lets_run (some f) =
    not (f.collab_control == FeatureCollabControl.cancelled)
    && not (is_some f.runtime_blocked_by_feature_id)

-- The body of the loop of `readyTasks`: whether the task is pushed.
unfoldable pub is_ready_task : Dict Feature → Dict Task → Task → Bool
is_ready_task features tasks t =
    t.status == ready
    && not (t.collab_control == suspended || t.collab_control == TaskCollabControl.conflict)
    && feature_lets_run (get t.feature_id features)
    && all (λ d. is_done_task (get d tasks)) t.depends_on

unfoldable pub ready_tasks : Graph → List Task
ready_tasks graph = keep (is_ready_task graph.features graph.tasks) (values graph.tasks)

-- The comparator of `queuedMilestones`.
unfoldable pub compare_positions : Milestone → Milestone → Ordering
compare_positions a b =
    compare (or_else a.steering_queue_position 0) (or_else b.steering_queue_position 0)

unfoldable pub queued_milestones : Graph → List Milestone
queued_milestones graph =
    sort_by compare_positions
      (keep (λ m. is_some m.steering_queue_position) (values graph.milestones))

unfoldable pub is_complete : Graph → Bool
is_complete graph =
    if length (values graph.features) == 0
    then false
    else all (λ f. is_complete_feature (some f)) (values graph.features)
