-- ===== src/Scheduling.antt =====
-- src/core/scheduling/index.ts: the units of work, their tiers and categories, and the critical path.
pub mod Priority
pub mod Metrics
pub mod Combined
use Prim.Native.String.{◌++◌ as ◌++ˢ◌}
use vcode.Base.{
  ℕ, suc, ◌+◌, String, Bool, true, false, ◌&&◌, ◌||◌, not, List, [], ◌∷◌, Option, none, some,
  or_else, includes, string_eq, ◌==◌, ◌!=◌, if◌then◌else◌, ltb,
}
use vcode.Base.Dict.{Dict, get, set}
use vcode.Types.Workflow.{
  FeatureWorkControl, TaskWeight, FeatureId, TaskId, work_control_eq, discussing, researching,
  planning, executing, ci_check, verifying, awaiting_merge, summarizing, work_complete, replanning,
}
use vcode.Types.Domain.{Feature, Task}
use vcode.Types.Runs.{AgentRun, AgentRunPhase}
use vcode.State.{run_blocks}

pub data WorkTypeTier : Type 0 where
  verify execute plan summarize : WorkTypeTier

abbrev pub work_type_tier_of : AgentRunPhase → WorkTypeTier
work_type_tier_of AgentRunPhase.verify = WorkTypeTier.verify
work_type_tier_of AgentRunPhase.ci_check = WorkTypeTier.verify
work_type_tier_of AgentRunPhase.execute = WorkTypeTier.execute
work_type_tier_of AgentRunPhase.plan = WorkTypeTier.plan
work_type_tier_of AgentRunPhase.discuss = WorkTypeTier.plan
work_type_tier_of AgentRunPhase.research = WorkTypeTier.plan
work_type_tier_of AgentRunPhase.replan = WorkTypeTier.plan
work_type_tier_of AgentRunPhase.summarize = WorkTypeTier.summarize

abbrev pub work_type_tier_priority : WorkTypeTier → ℕ
work_type_tier_priority WorkTypeTier.verify = 0
work_type_tier_priority WorkTypeTier.execute = 1
work_type_tier_priority WorkTypeTier.plan = 2
work_type_tier_priority WorkTypeTier.summarize = 3

abbrev pub task_weight_value : TaskWeight → ℕ
task_weight_value TaskWeight.trivial = 1
task_weight_value TaskWeight.small = 4
task_weight_value TaskWeight.medium = 10
task_weight_value TaskWeight.heavy = 30

pub data SchedulableUnit : Type 0 where
  task : Task → FeatureId → ℕ → SchedulableUnit
  feature_phase : Feature → AgentRunPhase → ℕ → SchedulableUnit

abbrev pub phase_name : AgentRunPhase → String
phase_name AgentRunPhase.execute = "execute"
phase_name AgentRunPhase.discuss = "discuss"
phase_name AgentRunPhase.research = "research"
phase_name AgentRunPhase.plan = "plan"
phase_name AgentRunPhase.ci_check = "ci_check"
phase_name AgentRunPhase.verify = "verify"
phase_name AgentRunPhase.summarize = "summarize"
phase_name AgentRunPhase.replan = "replan"

abbrev pub schedulable_unit_key : SchedulableUnit → String
schedulable_unit_key (SchedulableUnit.task t feature_id at) = "task:" ++ˢ t.id
schedulable_unit_key (SchedulableUnit.feature_phase f phase at) =
    "feature:" ++ˢ f.id ++ˢ ":" ++ˢ phase_name phase

pub data PhaseCategory : Type 0 where
  pre running post done : PhaseCategory

abbrev pub feature_phase_category : FeatureWorkControl → PhaseCategory
feature_phase_category wc =
    if includes wc (discussing ∷ researching ∷ planning ∷ replanning ∷ [])
    then PhaseCategory.pre
    else if includes wc (executing ∷ [])
    then PhaseCategory.running
    else if includes wc (ci_check ∷ verifying ∷ summarizing ∷ awaiting_merge ∷ [])
    then PhaseCategory.post
    else PhaseCategory.done

abbrev pub work_control_to_agent_run_phase : FeatureWorkControl → AgentRunPhase
work_control_to_agent_run_phase discussing = AgentRunPhase.discuss
work_control_to_agent_run_phase researching = AgentRunPhase.research
work_control_to_agent_run_phase planning = AgentRunPhase.plan
work_control_to_agent_run_phase replanning = AgentRunPhase.replan
work_control_to_agent_run_phase executing = AgentRunPhase.execute
work_control_to_agent_run_phase ci_check = AgentRunPhase.ci_check
work_control_to_agent_run_phase verifying = AgentRunPhase.verify
work_control_to_agent_run_phase awaiting_merge = AgentRunPhase.summarize
work_control_to_agent_run_phase summarizing = AgentRunPhase.summarize
work_control_to_agent_run_phase work_complete = AgentRunPhase.summarize

abbrev pub work_control_to_tier : FeatureWorkControl → WorkTypeTier
work_control_to_tier wc = work_type_tier_of (work_control_to_agent_run_phase wc)

-- `isBlockedByRun`, whose test of a run is the one of `deriveTaskBlocked`.
abbrev pub is_blocked_by_run : Option AgentRun → ℕ → Bool
is_blocked_by_run none now = false
is_blocked_by_run (some run) now = run_blocks run now

abbrev pub unit_to_node_id : SchedulableUnit → String
unit_to_node_id (SchedulableUnit.task t feature_id at) = "task:" ++ˢ feature_id ++ˢ ":" ++ˢ t.id
unit_to_node_id (SchedulableUnit.feature_phase f phase at) =
    elim (feature_phase_category f.work_control) [
      | PhaseCategory.post ↦ "virtual:" ++ˢ f.id ++ˢ ":post"
      | _ ↦ "virtual:" ++ˢ f.id
    ]

pub record NodeMetrics : Type 0 where
  pub max_depth : ℕ
  pub distance : ℕ

pub record GraphMetrics : Type 0 where
  pub node_metrics : Dict NodeMetrics
