-- ===== src/Graph/Transitions.antt =====
-- src/core/graph/transitions.ts: the state changes of features and tasks through the guards of
-- src/core/fsm, and the merge-train fields. A field of a patch is an `Option`.
pub mod Laws
use vcode.Base.{
  ℕ, String, Bool, true, false, List, Option, none, some, ◌&&◌, ◌==◌, ◌!=◌, or_else, is_some,
  if◌then◌else◌,
}
use vcode.Base.Dict.{get, set}
use vcode.Base.Results.{Result, ok, err, ◌>>=◌}
use vcode.Types.Workflow.{
  UnitStatus, FeatureWorkControl, FeatureCollabControl, TaskStatus, TaskCollabControl,
  TaskSuspendReason, FeatureId, TaskId, suspended, task_collab_eq,
}
use vcode.Types.Payload.{TaskResult}
use vcode.Types.Domain.{Feature, Task}
use vcode.Fsm.Table.{TransitionResult, valid, invalid}
use vcode.Fsm.Feature.{FeatureStateTriple, validate_feature_transition}
use vcode.Fsm.Task.{TaskStatePair, validate_task_transition}
use vcode.Graph.Store.{
  Graph, GraphError, Outcome, require, feature_missing, task_missing, illegal_transition,
}

pub record FeatureTransitionPatch : Type 0 where
  pub work_control : Option FeatureWorkControl
  pub status : Option UnitStatus
  pub collab_control : Option FeatureCollabControl

pub record TaskTransitionPatch : Type 0 where
  pub status : Option TaskStatus
  pub collab_control : Option TaskCollabControl
  pub result : Option TaskResult
  pub suspend_reason : Option TaskSuspendReason
  pub suspended_at : Option ℕ
  pub suspended_files : Option (List String)
  pub blocked_by_feature_id : Option FeatureId

-- A field of `MergeTrainUpdate`: not in the object, there as `undefined`, or there with a value.
pub data FieldUpdate : Type 0 where
  absent clear : FieldUpdate
  to_value : ℕ → FieldUpdate

pub record MergeTrainUpdate : Type 0 where
  pub manual_position : FieldUpdate
  pub entered_at : FieldUpdate
  pub entry_seq : FieldUpdate
  pub reentry_count : FieldUpdate

-- `if (!result.valid) throw new GraphValidationError(result.reason);`
abbrev pub accept : TransitionResult → Graph → Outcome
accept valid graph = ok graph
accept (invalid r) graph = err (illegal_transition r)

abbrev pub triple_of : Feature → FeatureStateTriple
triple_of f = record {
  work_control = f.work_control;
  status = f.status;
  collab_control = f.collab_control;
}

abbrev pub proposed_triple : Feature → FeatureTransitionPatch → FeatureStateTriple
proposed_triple f patch = record {
  work_control = or_else patch.work_control f.work_control;
  status = or_else patch.status f.status;
  collab_control = or_else patch.collab_control f.collab_control;
}

abbrev pub with_triple : Feature → FeatureStateTriple → Feature
with_triple f t = record f {
  work_control = t.work_control;
  status = t.status;
  collab_control = t.collab_control;
}

unfoldable pub transition_feature : Graph → FeatureId → FeatureTransitionPatch → Outcome
transition_feature graph id patch = do
  feature ← require (get id graph.features) (feature_missing id)
  let proposed = proposed_triple feature patch
  accept (validate_feature_transition (triple_of feature) proposed)
      (record graph { features = set id (with_triple feature proposed) graph.features })

abbrev pub pair_of : Task → TaskStatePair
pair_of t = record { status = t.status; collab_control = t.collab_control }

abbrev pub proposed_pair : Task → TaskTransitionPatch → TaskStatePair
proposed_pair t patch = record {
  status = or_else patch.status t.status;
  collab_control = or_else patch.collab_control t.collab_control;
}

-- `if (value !== undefined) updated.field = value;`
abbrev pub override {ℓ} : {A : Type ℓ} → Option A → Option A → Option A
override none old = old
override (some a) old = some a

-- The task with the fields of the patch.
unfoldable pub patched : Task → TaskTransitionPatch → Task
patched t patch = record t {
  status = or_else patch.status t.status;
  collab_control = or_else patch.collab_control t.collab_control;
  result = override patch.result t.result;
  suspend_reason = override patch.suspend_reason t.suspend_reason;
  suspended_at = override patch.suspended_at t.suspended_at;
  suspended_files = override patch.suspended_files t.suspended_files;
  blocked_by_feature_id = override patch.blocked_by_feature_id t.blocked_by_feature_id;
}

-- The four fields of a suspension are deleted.
unfoldable pub without_suspension : Task → Task
without_suspension t = record t {
  suspended_at = none;
  suspend_reason = none;
  suspended_files = none;
  blocked_by_feature_id = none;
}

unfoldable pub transition_task : Graph → TaskId → TaskTransitionPatch → Outcome
unfolding patched without_suspension
transition_task graph id patch = do
  task ← require (get id graph.tasks) (task_missing id)
  let proposed = proposed_pair task patch
  let updated = patched task patch
  let final =
      if task.collab_control == suspended && proposed.collab_control != suspended
      then without_suspension updated
      else updated
  accept (validate_task_transition (pair_of task) proposed)
      (record graph { tasks = set id final graph.tasks })

abbrev pub update_field : FieldUpdate → Option ℕ → Option ℕ
update_field absent old = old
update_field clear old = none
update_field (to_value n) old = some n

abbrev pub with_merge_train : Feature → MergeTrainUpdate → Feature
with_merge_train f fields = record f {
  merge_train_manual_position = update_field fields.manual_position f.merge_train_manual_position;
  merge_train_entered_at = update_field fields.entered_at f.merge_train_entered_at;
  merge_train_entry_seq = update_field fields.entry_seq f.merge_train_entry_seq;
  merge_train_reentry_count = update_field fields.reentry_count f.merge_train_reentry_count;
}

unfoldable pub update_merge_train_state : Graph → FeatureId → MergeTrainUpdate → Outcome
update_merge_train_state graph id fields = do
  feature ← require (get id graph.features) (feature_missing id)
  ok (record graph { features = set id (with_merge_train feature fields) graph.features })
