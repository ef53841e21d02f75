-- ===== src/Proposals.antt =====
-- src/core/proposals/index.ts: the operations of a proposal and what applying it returns. The fields
-- of a patch are there or not, as in a value that comes from JSON; none is there with `undefined`.
pub mod Stale
pub mod Aliases
pub mod Apply
pub mod Builder
use vcode.Base.{
  ℕ, String, Bool, true, false, ◌||◌, not, List, [], ◌∷◌, Option, none, some, is_some, all,
}
use vcode.Base.Dict.{Dict}
use vcode.Types.Workflow.{TaskWeight, TaskStatus, MilestoneId, FeatureId, TaskId}
use vcode.Types.Payload.{VerifyIssue}
use vcode.Graph.Store.{GraphError}
use vcode.Graph.Mutations.{TaskEditPatch}

pub data GraphProposalMode : Type 0 where
  plan replan : GraphProposalMode

abbrev pub ProposalAlias : Type 0
ProposalAlias = String

-- The fields of `add_task`.
pub record AddTaskProposalOp : Type 0 where
  pub task_id : TaskId
  pub feature_id : FeatureId
  pub description : String
  pub weight : Option TaskWeight
  pub reserved_write_paths : Option (List String)
  pub objective : Option String
  pub scope : Option String
  pub expected_files : Option (List String)
  pub references : Option (List String)
  pub outcome_verification : Option String

pub record PlannerFeatureEditPatch : Type 0 where
  pub name : Option String
  pub description : Option String
  pub summary : Option String
  pub rough_draft : Option String
  pub discuss_output : Option String
  pub research_output : Option String
  pub feature_objective : Option String
  pub feature_dod : Option (List String)
  pub verify_issues : Option (List VerifyIssue)
  pub milestone_id : Option MilestoneId

-- An operation by its kind: a milestone or a feature with its name and description, a dependency with
-- its two ends.
pub data GraphProposalOp : Type 0 where
  add_milestone : MilestoneId → String → String → GraphProposalOp
  add_feature : FeatureId → MilestoneId → String → String → GraphProposalOp
  remove_feature : FeatureId → GraphProposalOp
  edit_feature : FeatureId → PlannerFeatureEditPatch → GraphProposalOp
  add_task : AddTaskProposalOp → GraphProposalOp
  remove_task : TaskId → GraphProposalOp
  edit_task : TaskId → TaskEditPatch → GraphProposalOp
  add_dependency remove_dependency : String → String → GraphProposalOp

-- `version` has one value only.
pub record GraphProposal : Type 0 where
  pub mode : GraphProposalMode
  pub aliases : Dict String
  pub ops : List GraphProposalOp

-- The warnings, with what their texts quote.
pub data ProposalWarning : Type 0 where
  remove_started_feature : ℕ → FeatureId → ProposalWarning
  remove_started_task : ℕ → TaskId → TaskStatus → ProposalWarning

-- Why an operation is skipped before it is tried, with what the texts quote.
pub data StaleReason : Type 0 where
  milestone_exists milestone_missing : MilestoneId → StaleReason
  feature_exists feature_missing feature_started : FeatureId → StaleReason
  feature_has_dependents : FeatureId → List FeatureId → StaleReason
  task_exists task_missing : TaskId → StaleReason
  task_not_removable : TaskId → TaskStatus → StaleReason
  mixed_endpoints : StaleReason
  feature_depends feature_not_depends : FeatureId → FeatureId → StaleReason
  tasks_of_different_features task_depends task_not_depends : TaskId → TaskId → StaleReason

pub data SkipReason : Type 0 where
  stale : StaleReason → SkipReason
  refused : GraphError → SkipReason

pub record ProposalSkippedOp : Type 0 where
  pub op_index : ℕ
  pub op : GraphProposalOp
  pub reason : SkipReason

pub record ProposalApplyResult : Type 0 where
  pub proposal : GraphProposal
  pub applied : List GraphProposalOp
  pub skipped : List ProposalSkippedOp
  pub warnings : List ProposalWarning
  pub summary : String
  pub resolved_aliases : Dict String

-- The keys of a patch that `ALLOWED_FEATURE_PATCH_KEYS` does not list.
abbrev pub feature_patch_is_valid : PlannerFeatureEditPatch → Bool
feature_patch_is_valid patch =
    not
      (is_some patch.discuss_output || is_some patch.research_output || is_some patch.verify_issues)

-- `isGraphProposalOp` and `isGraphProposal` for a value of these types, whose fields have the types
-- that the code tests for.
abbrev pub is_graph_proposal_op : GraphProposalOp → Bool
is_graph_proposal_op (edit_feature id patch) = feature_patch_is_valid patch
is_graph_proposal_op _ = true

abbrev pub is_graph_proposal : GraphProposal → Bool
is_graph_proposal proposal = all is_graph_proposal_op proposal.ops
