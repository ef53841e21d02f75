-- ===== src/Graph/Creation.antt =====
-- src/core/graph/creation.ts: new milestones, features and tasks.
pub mod Laws
use text.Mathlib.Text.{starts_with}
use vcode.Base.{
  ℕ, suc, String, Bool, true, false, not, ◌&&◌, List, [], ◌∷◌, Option, none, some, ◌==◌, ◌!=◌,
  string_eq, includes, if◌then◌else◌, or_else, ltb, length,
}
use vcode.Base.Dict.{Dict, get, set, has, values}
use vcode.Base.Results.{Result, ok, err, ◌>>=◌, ◌>>◌, throw_if}
use vcode.Types.Workflow.{
  UnitStatus, FeatureWorkControl, FeatureCollabControl, TaskStatus, TaskCollabControl, TaskWeight,
  MilestoneId, FeatureId, TaskId, discussing, work_complete, work_control_eq, feature_collab_eq,
}
use vcode.Types.Domain.{Milestone, Feature, Task}
use vcode.Naming.{feature_branch_name, task_branch_name}
use vcode.Graph.Search.{Successors, has_path_via_successors}
use vcode.Graph.Store.{
  Graph, GraphError, Outcome, require, link, milestone_prefix, milestone_exists, milestone_missing,
  feature_prefix, feature_exists, feature_missing, feature_dep_prefix, feature_dep_missing,
  feature_self_dep, feature_cycle, task_prefix, task_exists, task_dep_prefix, task_dep_missing,
  task_dep_foreign, task_self_dep, task_cycle, task_in_cancelled_feature, task_in_completed_feature,
}

pub record CreateMilestoneOptions : Type 0 where
  pub id : MilestoneId
  pub name : String
  pub description : String

pub record CreateFeatureOptions : Type 0 where
  pub id : FeatureId
  pub milestone_id : MilestoneId
  pub name : String
  pub description : String
  pub depends_on : Option (List FeatureId)

pub record CreateTaskOptions : Type 0 where
  pub id : TaskId
  pub feature_id : FeatureId
  pub description : String
  pub depends_on : Option (List TaskId)
  pub weight : Option TaskWeight
  pub reserved_write_paths : Option (List String)
  pub objective : Option String
  pub scope : Option String
  pub expected_files : Option (List String)
  pub references : Option (List String)
  pub outcome_verification : Option String

unfoldable pub create_milestone : Graph → CreateMilestoneOptions → Outcome
create_milestone graph opts = do
  throw_if (not (starts_with opts.id "m-")) (milestone_prefix opts.id)
  throw_if (has opts.id graph.milestones) (milestone_exists opts.id)
  let milestone : Milestone = record {
    id = opts.id;
    name = opts.name;
    description = opts.description;
    status = UnitStatus.pending;
    order = length graph.milestones;
    steering_queue_position = none;
  }
  ok (record graph { milestones = set opts.id milestone graph.milestones })

-- The loop that checks each dependency of a new feature.
unfoldable pub check_feature_deps : Dict Feature → List FeatureId → Result GraphError (Unit {0})
check_feature_deps features [] = ok tt
check_feature_deps features (dep ∷ deps) = do
  throw_if (not (starts_with dep "f-")) (feature_dep_prefix dep)
  throw_if (not (has dep features)) (feature_dep_missing dep)
  check_feature_deps features deps

-- The loop that looks for a path from a dependency to the new node.
unfoldable pub check_paths :
    Successors → String → (String → GraphError) → List String → Result GraphError (Unit {0})
check_paths s id error [] = ok tt
check_paths s id error (dep ∷ deps) = do
  throw_if (has_path_via_successors dep id s) (error dep)
  check_paths s id error deps

-- `maxOrderInMilestone + 1`, where the maximum starts at -1.
unfoldable pub next_feature_order : MilestoneId → ℕ → List Feature → ℕ
next_feature_order m next [] = next
next_feature_order m next (f ∷ rest) =
    next_feature_order m
      (if f.milestone_id == m && ltb next (suc f.order_in_milestone)
        then suc f.order_in_milestone
        else next)
      rest

-- The set of each dependency gets the new node.
unfoldable pub link_all : String → List String → Successors → Successors
link_all id [] s = s
link_all id (dep ∷ deps) s = link_all id deps (link dep id s)

abbrev pub new_feature : CreateFeatureOptions → ℕ → Feature
new_feature opts order = record {
  id = opts.id;
  milestone_id = opts.milestone_id;
  order_in_milestone = order;
  name = opts.name;
  description = opts.description;
  depends_on = or_else opts.depends_on [];
  status = UnitStatus.pending;
  work_control = discussing;
  collab_control = FeatureCollabControl.none;
  feature_branch = feature_branch_name opts.id opts.name;
  feature_test_policy = none;
  merge_train_manual_position = none;
  merge_train_entered_at = none;
  merge_train_entry_seq = none;
  merge_train_reentry_count = none;
  runtime_blocked_by_feature_id = none;
  summary = none;
  token_usage = none;
  rough_draft = none;
  discuss_output = none;
  research_output = none;
  feature_objective = none;
  feature_dod = none;
  verify_issues = none;
  main_merge_sha = none;
  branch_head_sha = none;
}

unfoldable pub create_feature : Graph → CreateFeatureOptions → Outcome
create_feature graph opts = do
  throw_if (not (starts_with opts.id "f-")) (feature_prefix opts.id)
  throw_if (has opts.id graph.features) (feature_exists opts.id)
  throw_if (not (has opts.milestone_id graph.milestones)) (milestone_missing opts.milestone_id)
  let depends_on = or_else opts.depends_on []
  check_feature_deps graph.features depends_on
  throw_if (includes opts.id depends_on) (feature_self_dep opts.id)
  check_paths graph.feature_successors opts.id (feature_cycle opts.id) depends_on
  let order = next_feature_order opts.milestone_id 0 (values graph.features)
  ok (record graph {
    features = set opts.id (new_feature opts order) graph.features;
    feature_successors = link_all opts.id depends_on graph.feature_successors;
  })

-- The loop that checks each dependency of a new task.
unfoldable pub check_task_deps : Dict Task → FeatureId → List TaskId → Result GraphError (Unit {0})
check_task_deps tasks feature_id [] = ok tt
check_task_deps tasks feature_id (dep ∷ deps) = do
  throw_if (not (starts_with dep "t-")) (task_dep_prefix dep)
  dep_task ← require (get dep tasks) (task_dep_missing dep)
  throw_if (dep_task.feature_id != feature_id) (task_dep_foreign dep dep_task.feature_id feature_id)
  check_task_deps tasks feature_id deps

-- `maxOrderInFeature + 1`, where the maximum starts at -1.
unfoldable pub next_task_order : FeatureId → ℕ → List Task → ℕ
next_task_order id next [] = next
next_task_order id next (t ∷ rest) =
    next_task_order id
      (if t.feature_id == id && ltb next (suc t.order_in_feature)
        then suc t.order_in_feature
        else next)
      rest

abbrev pub new_task : CreateTaskOptions → Feature → ℕ → Task
new_task opts feature order = record {
  id = opts.id;
  feature_id = opts.feature_id;
  order_in_feature = order;
  description = opts.description;
  depends_on = or_else opts.depends_on [];
  status = TaskStatus.pending;
  collab_control = TaskCollabControl.none;
  worker_id = none;
  worktree_branch = some (task_branch_name feature.id feature.name opts.id);
  task_test_policy = none;
  result = none;
  weight = opts.weight;
  token_usage = none;
  reserved_write_paths = opts.reserved_write_paths;
  blocked_by_feature_id = none;
  session_id = none;
  consecutive_failures = none;
  suspended_at = none;
  suspend_reason = none;
  suspended_files = none;
  objective = opts.objective;
  scope = opts.scope;
  expected_files = opts.expected_files;
  references = opts.references;
  outcome_verification = opts.outcome_verification;
  branch_head_sha = none;
}

unfoldable pub create_task : Graph → CreateTaskOptions → Outcome
create_task graph opts = do
  throw_if (not (starts_with opts.id "t-")) (task_prefix opts.id)
  throw_if (has opts.id graph.tasks) (task_exists opts.id)
  feature ← require (get opts.feature_id graph.features) (feature_missing opts.feature_id)
  throw_if (feature.collab_control == FeatureCollabControl.cancelled)
      (task_in_cancelled_feature opts.feature_id)
  throw_if
      (feature.work_control == work_complete
        && feature.collab_control == FeatureCollabControl.merged)
      (task_in_completed_feature opts.feature_id)
  let depends_on = or_else opts.depends_on []
  check_task_deps graph.tasks opts.feature_id depends_on
  throw_if (includes opts.id depends_on) (task_self_dep opts.id)
  check_paths graph.task_successors opts.id (task_cycle opts.id) depends_on
  let order = next_task_order opts.feature_id 0 (values graph.tasks)
  ok (record graph {
    tasks = set opts.id (new_task opts feature order) graph.tasks;
    task_successors = link_all opts.id depends_on graph.task_successors;
  })
