-- ===== src/Examples/Status.antt =====
-- The derived states of src/core/state/index.ts at concrete inputs.
use vcode.Base.{◌≡◌, refl, List, [], ◌∷◌, none, some, includes}
use vcode.Types.Workflow.{DerivedUnitStatus, TaskStatus}
use vcode.Types.Domain.{Feature, Task}
use vcode.Types.Runs.{AgentRun, AgentRunPhase, RunScope, RunOwner, RunAttention, retry_await}
use vcode.State.{
  derive_feature_unit_status, derive_milestone_unit_status, derive_feature_done, is_under_way,
}
use vcode.State.Features
use vcode.State.Features.{IsHeldBack, task_blocked_iff, feature_status_means}
use vcode.State.Milestones
use vcode.State.Milestones.{milestone_status_means}
use vcode.Graph.Creation.{new_feature, new_task}
use vcode.Examples.Fixtures.{feature_options, task_options}

abbrev api : Feature
api = new_feature (feature_options "f-api") 0

abbrev first : Task
first = new_task (task_options "t-1" none) api 0

-- A run that waits until 100 to be tried again.
abbrev retrying : AgentRun
retrying = record {
  id = "run-1";
  scope = RunScope.task "t-1";
  phase = AgentRunPhase.execute;
  run_status = retry_await;
  owner = RunOwner.system;
  attention = RunAttention.none;
  session_id = none;
  harness_kind = none;
  worker_pid = none;
  worker_boot_epoch = none;
  harness_meta_json = none;
  payload_json = none;
  token_usage = none;
  restart_count = 1;
  max_retries = 3;
  retry_at = some 100;
}

feature_status_means_example :
    Features.Meaning api
      (TaskStatus.done ∷ TaskStatus.failed ∷ [])
      (derive_feature_unit_status api (TaskStatus.done ∷ TaskStatus.failed ∷ []))
feature_status_means_example = feature_status_means api (TaskStatus.done ∷ TaskStatus.failed ∷ [])

partial_test :
    derive_feature_unit_status api (TaskStatus.done ∷ TaskStatus.failed ∷ [])
    ≡ DerivedUnitStatus.partially_failed
unfolding derive_feature_unit_status derive_feature_done is_under_way
partial_test = refl

abbrev mixed : List DerivedUnitStatus
mixed = DerivedUnitStatus.failed ∷ DerivedUnitStatus.in_progress ∷ []

milestone_status_means_example : Milestones.Meaning mixed (derive_milestone_unit_status mixed)
milestone_status_means_example = milestone_status_means mixed

mixed_test : derive_milestone_unit_status mixed ≡ DerivedUnitStatus.partially_failed
unfolding derive_milestone_unit_status includes
mixed_test = refl
