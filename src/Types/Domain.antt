-- ===== src/Types/Domain.antt =====
-- src/core/types/domain.ts: milestones, features and tasks. An optional field is an `Option`;
-- orders, times and queue positions are natural numbers.
use vcode.Base.{ℕ, String, Option, List}
use vcode.Types.Workflow.{
  UnitStatus, FeatureWorkControl, FeatureCollabControl, TaskStatus, TaskCollabControl, TestPolicy,
  TaskWeight, TaskSuspendReason, MilestoneId, FeatureId, TaskId,
}
use vcode.Types.Payload.{TokenUsageAggregate, VerifyIssue, TaskResult}

pub record Milestone : Type 0 where
  pub id : MilestoneId
  pub name : String
  pub description : String
  pub status : UnitStatus
  pub order : ℕ
  pub steering_queue_position : Option ℕ

pub record Feature : Type 0 where
  pub id : FeatureId
  pub milestone_id : MilestoneId
  pub order_in_milestone : ℕ
  pub name : String
  pub description : String
  pub depends_on : List FeatureId
  pub status : UnitStatus
  pub work_control : FeatureWorkControl
  pub collab_control : FeatureCollabControl
  pub feature_branch : String
  pub feature_test_policy : Option TestPolicy
  pub merge_train_manual_position : Option ℕ
  pub merge_train_entered_at : Option ℕ
  pub merge_train_entry_seq : Option ℕ
  pub merge_train_reentry_count : Option ℕ
  pub runtime_blocked_by_feature_id : Option FeatureId
  pub summary : Option String
  pub token_usage : Option TokenUsageAggregate
  pub rough_draft : Option String
  pub discuss_output : Option String
  pub research_output : Option String
  pub feature_objective : Option String
  pub feature_dod : Option (List String)
  pub verify_issues : Option (List VerifyIssue)
  pub main_merge_sha : Option String
  pub branch_head_sha : Option String

pub record Task : Type 0 where
  pub id : TaskId
  pub feature_id : FeatureId
  pub order_in_feature : ℕ
  pub description : String
  pub depends_on : List TaskId
  pub status : TaskStatus
  pub collab_control : TaskCollabControl
  pub worker_id : Option String
  pub worktree_branch : Option String
  pub task_test_policy : Option TestPolicy
  pub result : Option TaskResult
  pub weight : Option TaskWeight
  pub token_usage : Option TokenUsageAggregate
  pub reserved_write_paths : Option (List String)
  pub blocked_by_feature_id : Option FeatureId
  pub session_id : Option String
  pub consecutive_failures : Option ℕ
  pub suspended_at : Option ℕ
  pub suspend_reason : Option TaskSuspendReason
  pub suspended_files : Option (List String)
  pub objective : Option String
  pub scope : Option String
  pub expected_files : Option (List String)
  pub references : Option (List String)
  pub outcome_verification : Option String
  pub branch_head_sha : Option String
