-- ===== src/Scheduling/Priority.antt =====
-- src/core/scheduling/index.ts: `prioritizeReadyWork`. The reader of runs is an argument, and so is
-- `localeCompare`, which orders texts by the rules of a language.
pub mod Order
pub mod Due
pub mod Exact
pub mod Claims
pub mod Keys
pub mod Sorted
pub mod Profiles
pub mod Reads
pub mod Ranked
use Prim.Native.Nat.{compare}
use vcode.Base.{
  ℕ, suc, String, Bool, true, false, ◌&&◌, ◌||◌, not, List, [], ◌∷◌, ◌++◌, Option, none, some,
  or_else, includes, string_eq, nat_eq, ◌==◌, ◌!=◌, if◌then◌else◌, ltb, length, keep, map, Ordering,
  is_some,
}
use vcode.Base.Dict.{Dict, get, set, values}
use vcode.Base.Sort.{sort_by, then_by}
use vcode.Types.Workflow.{
  FeatureWorkControl, TaskStatus, FeatureId, TaskId, MilestoneId, task_status_eq, executing,
}
use vcode.Types.Domain.{Milestone, Feature, Task}
use vcode.Types.Runs.{AgentRun, AgentRunPhase, AgentRunStatus, run_status_eq}
use vcode.Graph.Store.{Graph}
use vcode.Graph.Queries.{ready_tasks, ready_features}
use vcode.Scheduling.{
  SchedulableUnit, schedulable_unit_key, work_control_to_agent_run_phase, work_control_to_tier,
  work_type_tier_of, work_type_tier_priority, is_blocked_by_run, unit_to_node_id, GraphMetrics,
  NodeMetrics,
}

-- `ExecutionRunReader`: the run of a scope, in a phase if one is given.
abbrev pub ExecutionRunReader : Type 0
ExecutionRunReader = String → Option AgentRunPhase → Option AgentRun

-- `readySince?.get(key) ?? now`
abbrev pub ready_at_of : Option (Dict ℕ) → String → ℕ → ℕ
ready_at_of none key now = now
ready_at_of (some m) key now = or_else (get key m) now

abbrev pub task_unit : Option (Dict ℕ) → ℕ → Task → SchedulableUnit
task_unit ready_since now t =
    SchedulableUnit.task t t.feature_id
      (ready_at_of ready_since (schedulable_unit_key (SchedulableUnit.task t t.feature_id now)) now)

abbrev pub feature_unit : Option (Dict ℕ) → ℕ → Feature → SchedulableUnit
feature_unit ready_since now f =
    let phase = work_control_to_agent_run_phase f.work_control in
    SchedulableUnit.feature_phase f phase (
      ready_at_of ready_since (schedulable_unit_key (SchedulableUnit.feature_phase f phase now))
        now)

-- The phase of the feature has a run that is under way, failed or waits.
abbrev pub run_holds : Option AgentRun → ℕ → Bool
run_holds none now = false
run_holds (some run) now =
    run.run_status == AgentRunStatus.running
    || run.run_status == AgentRunStatus.failed
    || is_blocked_by_run (some run) now

-- The two loops that collect the units.
unfoldable pub collect_units :
    Graph → ExecutionRunReader → ℕ → Option (Dict ℕ) → List SchedulableUnit
collect_units graph runs now ready_since =
    map (task_unit ready_since now)
      (keep (λ t. not (is_blocked_by_run (runs t.id none) now)) (ready_tasks graph))
    ++ map (feature_unit ready_since now) (
        keep
          (λ f.
            not (run_holds (runs f.id (some (work_control_to_agent_run_phase f.work_control))) now))
          (ready_features graph))

-- The ids of the tasks that claim each path.
unfoldable pub claim_paths : TaskId → List String → Dict (List TaskId) → Dict (List TaskId)
claim_paths id [] claims = claims
claim_paths id (p ∷ ps) claims =
    claim_paths id ps (set p (or_else (get p claims) [] ++ id ∷ []) claims)

unfoldable pub all_claims : List SchedulableUnit → Dict (List TaskId) → Dict (List TaskId)
all_claims [] claims = claims
all_claims (SchedulableUnit.task t feature_id at ∷ us) claims =
    all_claims us (claim_paths t.id (or_else t.reserved_write_paths []) claims)
all_claims (SchedulableUnit.feature_phase f phase at ∷ us) claims = all_claims us claims

-- Those whose path is claimed more than once.
unfoldable pub overlapping : List (List TaskId) → List TaskId
overlapping [] = []
overlapping (ids ∷ rest) =
    let later = overlapping rest in if ltb 1 (length ids) then ids ++ later else later

abbrev pub overlapping_task_ids : List SchedulableUnit → List TaskId
overlapping_task_ids us = overlapping (values (all_claims us []))

-- `milestoneQueuePos`
unfoldable pub queue_positions : List Milestone → Dict ℕ → Dict ℕ
queue_positions [] positions = positions
queue_positions (m ∷ ms) positions = elim m.steering_queue_position [
  | none ↦ queue_positions ms positions
  | some p ↦ queue_positions ms (set m.id p positions)
]

-- `Number.MAX_SAFE_INTEGER`
abbrev pub max_safe_integer : ℕ
max_safe_integer = 9007199254740991

-- What the comparator reads.
pub record Ranking : Type 0 where
  pub features : Dict Feature
  pub metrics : GraphMetrics
  pub positions : Dict ℕ
  pub overlaps : List TaskId

abbrev milestone_of : Option Feature → Option MilestoneId
milestone_of none = none
milestone_of (some f) = some f.milestone_id

abbrev pub unit_milestone : Ranking → SchedulableUnit → Option MilestoneId
unit_milestone r (SchedulableUnit.task t feature_id at) = milestone_of (get feature_id r.features)
unit_milestone r (SchedulableUnit.feature_phase f phase at) = some f.milestone_id

abbrev pub queue_position : Ranking → Option MilestoneId → ℕ
queue_position r none = max_safe_integer
queue_position r (some m) = or_else (get m r.positions) max_safe_integer

abbrev work_of : Option Feature → FeatureWorkControl
work_of none = executing
work_of (some f) = f.work_control

abbrev pub unit_tier : Ranking → SchedulableUnit → ℕ
unit_tier r (SchedulableUnit.task t feature_id at) =
    work_type_tier_priority (work_control_to_tier (work_of (get feature_id r.features)))
unit_tier r (SchedulableUnit.feature_phase f phase at) =
    work_type_tier_priority (work_type_tier_of phase)

abbrev pub depth_of : Option NodeMetrics → ℕ
depth_of none = 0
depth_of (some m) = m.max_depth

abbrev pub unit_depth : Ranking → SchedulableUnit → ℕ
unit_depth r u = depth_of (get (unit_to_node_id u) r.metrics.node_metrics)

-- `b ? 1 : 0`
abbrev bit : Bool → ℕ
bit true = 1
bit false = 0

abbrev pub unit_failed : SchedulableUnit → ℕ
unit_failed (SchedulableUnit.task t feature_id at) = bit (ltb 0 (or_else t.consecutive_failures 0))
unit_failed (SchedulableUnit.feature_phase f phase at) = 0

abbrev pub unit_overlap : Ranking → SchedulableUnit → ℕ
unit_overlap r (SchedulableUnit.task t feature_id at) = bit (includes t.id r.overlaps)
unit_overlap r (SchedulableUnit.feature_phase f phase at) = 0

abbrev pub is_retry_eligible : SchedulableUnit → Bool
is_retry_eligible (SchedulableUnit.task t feature_id at) =
    t.status == TaskStatus.stuck || t.status == TaskStatus.failed
is_retry_eligible (SchedulableUnit.feature_phase f phase at) = false

-- `isRetryEligible(unit) ? 0 : 1`
abbrev pub unit_fresh : SchedulableUnit → ℕ
unit_fresh u = bit (not (is_retry_eligible u))

abbrev pub unit_ready_at : SchedulableUnit → ℕ
unit_ready_at (SchedulableUnit.task t feature_id at) = at
unit_ready_at (SchedulableUnit.feature_phase f phase at) = at

abbrev pub unit_id : SchedulableUnit → String
unit_id (SchedulableUnit.task t feature_id at) = t.id
unit_id (SchedulableUnit.feature_phase f phase at) = f.id

abbrev pub unit_position : Ranking → SchedulableUnit → ℕ
unit_position r u = queue_position r (unit_milestone r u)

module _ (locale_compare : String → String → Ordering) where
  -- The comparator, by its eight keys in turn.
  unfoldable pub compare_units : Ranking → SchedulableUnit → SchedulableUnit → Ordering
  compare_units r a b = then_by (compare (unit_position r a) (unit_position r b)) (
      then_by (compare (unit_tier r a) (unit_tier r b)) (
        then_by (compare (unit_depth r b) (unit_depth r a)) (
          then_by (compare (unit_failed a) (unit_failed b)) (
            then_by (compare (unit_overlap r a) (unit_overlap r b)) (
              then_by (compare (unit_fresh a) (unit_fresh b)) (
                then_by (compare (unit_ready_at a) (unit_ready_at b))
                  (locale_compare (unit_id a) (unit_id b))))))))

  abbrev pub ranking_of : Graph → GraphMetrics → List SchedulableUnit → Ranking
  ranking_of graph metrics us = record {
    features = graph.features;
    metrics = metrics;
    positions = queue_positions (values graph.milestones) [];
    overlaps = overlapping_task_ids us;
  }

  unfoldable pub prioritize_ready_work :
      Graph → ExecutionRunReader → GraphMetrics → ℕ → Option (Dict ℕ) → List SchedulableUnit
  prioritize_ready_work graph runs metrics now ready_since =
      let us = collect_units graph runs now ready_since in
      sort_by (compare_units (ranking_of graph metrics us)) us
