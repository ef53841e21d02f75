-- ===== src/Proposals/Stale.antt =====
-- src/core/proposals/index.ts: `staleReasonForOp` and what it asks, and `collectProposalWarnings`.
use text.Mathlib.Text.{starts_with}
use vcode.Base.{
  ℕ, String, Bool, true, false, ◌||◌, ◌&&◌, not, List, [], ◌∷◌, Option, none, some, any, keep, map,
  ◌==◌, ◌!=◌, string_eq, includes, if◌then◌else◌,
}
use vcode.Base.Dict.{get, has, values}
use vcode.Types.Workflow.{
  UnitStatus, TaskStatus, TaskCollabControl, FeatureId, TaskId, unit_status_eq, task_status_eq,
  task_collab_eq,
}
use vcode.Types.Domain.{Feature, Task}
use vcode.Graph.Store.{Graph}
use vcode.Proposals.{
  GraphProposalOp, StaleReason, ProposalWarning, remove_started_feature, remove_started_task,
}

abbrev pub is_feature_id : String → Bool
is_feature_id id = starts_with id "f-"

abbrev pub task_has_started : Task → Bool
task_has_started t = t.status != TaskStatus.pending || t.collab_control != TaskCollabControl.none

abbrev pub task_is_removable : Task → Bool
task_is_removable t = t.status == TaskStatus.pending || t.status == TaskStatus.cancelled

abbrev pub feature_has_started : Graph → Feature → Bool
feature_has_started graph f =
    f.status != UnitStatus.pending
    || any (λ t. t.feature_id == f.id && task_has_started t) (values graph.tasks)

abbrev reason_if : Bool → StaleReason → Option StaleReason
reason_if true reason = some reason
reason_if false reason = none

abbrev pub feature_dependency_reason : Graph → FeatureId → FeatureId → Bool → Option StaleReason
feature_dependency_reason graph from_id to_id adding = elim (get from_id graph.features) [
  | none ↦ some (StaleReason.feature_missing from_id)
  | some from ↦ elim (get to_id graph.features) [
    | none ↦ some (StaleReason.feature_missing to_id)
    | some to ↦
        if adding && includes to_id from.depends_on
        then some (StaleReason.feature_depends from_id to_id)
        else reason_if (not adding && not (includes to_id from.depends_on))
            (StaleReason.feature_not_depends from_id to_id)
  ]
]

abbrev pub task_dependency_reason : Graph → TaskId → TaskId → Bool → Option StaleReason
task_dependency_reason graph from_id to_id adding = elim (get from_id graph.tasks) [
  | none ↦ some (StaleReason.task_missing from_id)
  | some from ↦ elim (get to_id graph.tasks) [
    | none ↦ some (StaleReason.task_missing to_id)
    | some to ↦
        if from.feature_id != to.feature_id
        then some (StaleReason.tasks_of_different_features from_id to_id)
        else if adding && includes to_id from.depends_on
        then some (StaleReason.task_depends from_id to_id)
        else reason_if (not adding && not (includes to_id from.depends_on))
            (StaleReason.task_not_depends from_id to_id)
  ]
]

unfoldable pub dependency_reason : Graph → String → String → Bool → Option StaleReason
dependency_reason graph from_id to_id adding = elim (is_feature_id from_id) [
  | true ↦ elim (is_feature_id to_id) [
    | true ↦ feature_dependency_reason graph from_id to_id adding
    | false ↦ some StaleReason.mixed_endpoints
  ]
  | false ↦ elim (is_feature_id to_id) [
    | true ↦ some StaleReason.mixed_endpoints
    | false ↦ task_dependency_reason graph from_id to_id adding
  ]
]

abbrev pub dependents_of : Graph → FeatureId → List FeatureId
dependents_of graph id =
    map (λ f. f.id) (keep (λ f. includes id f.depends_on) (values graph.features))

abbrev dependents_reason : FeatureId → List FeatureId → Option StaleReason
dependents_reason id [] = none
dependents_reason id (d ∷ ds) = some (StaleReason.feature_has_dependents id (d ∷ ds))

unfoldable pub stale_reason_for_op : Graph → GraphProposalOp → Option StaleReason
unfolding dependency_reason
stale_reason_for_op graph (GraphProposalOp.add_milestone id name description) =
    reason_if (has id graph.milestones) (StaleReason.milestone_exists id)
stale_reason_for_op graph (GraphProposalOp.add_feature id milestone_id name description) =
    if has id graph.features
    then some (StaleReason.feature_exists id)
    else reason_if (not (has milestone_id graph.milestones))
        (StaleReason.milestone_missing milestone_id)
stale_reason_for_op graph (GraphProposalOp.remove_feature id) = elim (get id graph.features) [
  | none ↦ some (StaleReason.feature_missing id)
  | some f ↦
      if feature_has_started graph f
      then some (StaleReason.feature_started id)
      else dependents_reason id (dependents_of graph id)
]
stale_reason_for_op graph (GraphProposalOp.edit_feature id patch) =
    if not (has id graph.features)
    then some (StaleReason.feature_missing id)
    else elim patch.milestone_id [
      | none ↦ none
      | some m ↦ reason_if (not (has m graph.milestones)) (StaleReason.milestone_missing m)
    ]
stale_reason_for_op graph (GraphProposalOp.add_task op) =
    if has op.task_id graph.tasks
    then some (StaleReason.task_exists op.task_id)
    else reason_if (not (has op.feature_id graph.features))
        (StaleReason.feature_missing op.feature_id)
stale_reason_for_op graph (GraphProposalOp.remove_task id) = elim (get id graph.tasks) [
  | none ↦ some (StaleReason.task_missing id)
  | some t ↦ reason_if (not (task_is_removable t)) (StaleReason.task_not_removable id t.status)
]
stale_reason_for_op graph (GraphProposalOp.edit_task id patch) =
    reason_if (not (has id graph.tasks)) (StaleReason.task_missing id)
stale_reason_for_op graph (GraphProposalOp.add_dependency from to) =
    dependency_reason graph from to true
stale_reason_for_op graph (GraphProposalOp.remove_dependency from to) =
    dependency_reason graph from to false

-- What one operation adds to the warnings.
unfoldable pub warnings_for_op : Graph → ℕ → GraphProposalOp → List ProposalWarning
warnings_for_op graph index (GraphProposalOp.remove_task id) = elim (get id graph.tasks) [
  | none ↦ []
  | some t ↦ if task_is_removable t then [] else remove_started_task index t.id t.status ∷ []
]
warnings_for_op graph index (GraphProposalOp.remove_feature id) = elim (get id graph.features) [
  | none ↦ []
  | some f ↦ if feature_has_started graph f then remove_started_feature index f.id ∷ [] else []
]
warnings_for_op graph index _ = []
