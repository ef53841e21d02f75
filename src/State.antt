-- ===== src/State.antt =====
-- src/core/state/index.ts: the statuses derived for display and for the scheduler.
pub mod Milestones
pub mod Features
use vcode.Base.{
  ℕ, ◌+◌, Bool, true, false, ◌&&◌, ◌||◌, List, [], ◌∷◌, Option, none, some, ◌==◌, ◌!=◌,
  if◌then◌else◌, or_else, all, keep, length, includes, ltb, nat_eq, string_eq, String,
}
use vcode.Types.Workflow.{
  DerivedUnitStatus, TaskStatus, TaskCollabControl, FeatureCollabControl, FeatureId, discussing,
  researching, planning, executing, ci_check, verifying, awaiting_merge, summarizing, replanning,
  work_complete, merge_queued, integrating, suspended, derived_status_eq, task_status_eq,
  task_collab_eq, work_control_eq, feature_collab_eq,
}
use vcode.Types.Domain.{Feature, Task}
use vcode.Types.Runs.{AgentRun, retry_await, await_response, await_approval, run_status_eq}

pub data SummaryAvailability : Type 0 where
  unavailable waiting skipped available : SummaryAvailability

-- `TaskStatus | 'blocked'`
pub data TaskPresentationStatus : Type 0 where
  of_task : TaskStatus → TaskPresentationStatus
  blocked : TaskPresentationStatus

pub record FeatureAggregateState : Type 0 where
  pub feature_id : FeatureId
  pub status : DerivedUnitStatus
  pub summary_availability : SummaryAvailability
  pub is_done : Bool

-- The part of `deriveTaskBlocked` that reads the run.
unfoldable pub run_blocks : AgentRun → ℕ → Bool
run_blocks run now =
    if run.run_status == await_response || run.run_status == await_approval
    then true
    else run.run_status == retry_await && ltb now (or_else run.retry_at (now + 1))

unfoldable pub derive_task_blocked : Task → Option AgentRun → ℕ → Bool
unfolding run_blocks
derive_task_blocked task run now =
    if task.status == TaskStatus.cancelled
    then false
    else if task.collab_control == suspended || task.collab_control == TaskCollabControl.conflict
    then true
    else elim run [ none ↦ false | some r ↦ run_blocks r now ]

unfoldable pub derive_task_presentation_status : Task → Option AgentRun → ℕ → TaskPresentationStatus
derive_task_presentation_status task run now =
    if derive_task_blocked task run now then blocked else of_task task.status

-- `feature.summary !== undefined && feature.summary.length > 0`
abbrev has_summary : Option String → Bool
has_summary none = false
has_summary (some s) = s != ""

unfoldable pub derive_summary_availability : Feature → SummaryAvailability
derive_summary_availability feature =
    if has_summary feature.summary
    then available
    else if feature.work_control == summarizing
    then waiting
    else if feature.work_control == work_complete
    then skipped
    else unavailable

unfoldable pub derive_feature_done : Feature → Bool
derive_feature_done feature =
    feature.work_control == work_complete && feature.collab_control == FeatureCollabControl.merged

-- The long disjunction of `deriveFeatureUnitStatus`.
unfoldable pub is_under_way : Feature → Bool
is_under_way feature =
    feature.work_control == discussing
    || feature.work_control == researching
    || feature.work_control == planning
    || feature.work_control == executing
    || feature.work_control == ci_check
    || feature.work_control == verifying
    || feature.work_control == awaiting_merge
    || feature.work_control == summarizing
    || feature.work_control == replanning
    || feature.collab_control == FeatureCollabControl.branch_open
    || feature.collab_control == merge_queued
    || feature.collab_control == integrating
    || feature.collab_control == FeatureCollabControl.conflict
    || feature.collab_control == FeatureCollabControl.merged

-- `frontierTaskStatuses.filter((status) => status === 'failed').length`
abbrev pub failed_count : List TaskStatus → ℕ
failed_count statuses = length (keep (λ s. s == TaskStatus.failed) statuses)

unfoldable pub derive_feature_unit_status : Feature → List TaskStatus → DerivedUnitStatus
derive_feature_unit_status feature frontier =
    let failed_frontier_count = failed_count frontier in
    if feature.collab_control == FeatureCollabControl.cancelled
    then DerivedUnitStatus.cancelled
    else if derive_feature_done feature
    then DerivedUnitStatus.done
    else if ltb 0 (length frontier) && failed_frontier_count == length frontier
    then DerivedUnitStatus.failed
    else if ltb 0 failed_frontier_count
    then DerivedUnitStatus.partially_failed
    else if is_under_way feature
    then DerivedUnitStatus.in_progress
    else DerivedUnitStatus.pending

unfoldable pub derive_milestone_unit_status : List DerivedUnitStatus → DerivedUnitStatus
derive_milestone_unit_status statuses =
    let has_in_progress = includes DerivedUnitStatus.in_progress statuses in
    let has_partially_failed = includes DerivedUnitStatus.partially_failed statuses in
    let has_failed = includes DerivedUnitStatus.failed statuses in
    if length statuses == 0
    then DerivedUnitStatus.pending
    else if all (λ s. s == DerivedUnitStatus.done) statuses
    then DerivedUnitStatus.done
    else if all (λ s. s == DerivedUnitStatus.cancelled) statuses
    then DerivedUnitStatus.cancelled
    else if has_partially_failed || has_failed && has_in_progress
    then DerivedUnitStatus.partially_failed
    else if has_failed
    then DerivedUnitStatus.failed
    else if has_in_progress
    then DerivedUnitStatus.in_progress
    else DerivedUnitStatus.pending

unfoldable pub derive_feature_aggregate_state : Feature → List TaskStatus → FeatureAggregateState
derive_feature_aggregate_state feature frontier = record {
  feature_id = feature.id;
  status = derive_feature_unit_status feature frontier;
  summary_availability = derive_summary_availability feature;
  is_done = derive_feature_done feature;
}
