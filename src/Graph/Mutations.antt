-- ===== src/Graph/Mutations.antt =====
-- src/core/graph/task-mutations.ts and milestone-mutations.ts, and `changeMilestone` of
-- src/core/graph/feature-mutations.ts.
pub mod Laws
pub mod Kept
use vcode.Base.{
  ℕ, suc, String, Bool, true, false, not, ◌&&◌, List, [], ◌∷◌, Option, none, some, ◌==◌, ◌!=◌,
  string_eq, nat_eq, includes, without, if◌then◌else◌, or_else, ltb, length, keep, map, is_some,
}
use vcode.Base.Dict.{Dict, get, set, has, values, delete}
use vcode.Base.Results.{Result, ok, err, ◌>>=◌, ◌>>◌, throw_if}
use vcode.Types.Workflow.{TaskStatus, TaskWeight, MilestoneId, FeatureId, TaskId, task_status_eq}
use vcode.Types.Domain.{Milestone, Feature, Task}
use vcode.Graph.Search.{Successors}
use vcode.Graph.Store.{
  Graph, GraphError, Outcome, require, unlink, milestone_missing, feature_missing, task_missing,
  task_not_removable, reorder_count, reorder_missing,
}
use vcode.Graph.Transitions.{override}

pub record TaskEditPatch : Type 0 where
  pub description : Option String
  pub weight : Option TaskWeight
  pub reserved_write_paths : Option (List String)
  pub objective : Option String
  pub scope : Option String
  pub expected_files : Option (List String)
  pub references : Option (List String)
  pub outcome_verification : Option String

abbrev pub edited : Task → TaskEditPatch → Task
edited t patch = record t {
  description = or_else patch.description t.description;
  weight = override patch.weight t.weight;
  reserved_write_paths = override patch.reserved_write_paths t.reserved_write_paths;
  objective = override patch.objective t.objective;
  scope = override patch.scope t.scope;
  expected_files = override patch.expected_files t.expected_files;
  references = override patch.references t.references;
  outcome_verification = override patch.outcome_verification t.outcome_verification;
}

unfoldable pub edit_task : Graph → TaskId → TaskEditPatch → Outcome
edit_task graph id patch = do
  task ← require (get id graph.tasks) (task_missing id)
  ok (record graph { tasks = set id (edited task patch) graph.tasks })

-- A map's values changed in place by a loop over its entries.
unfoldable pub map_values {ℓ} : {V : Type ℓ} → (V → V) → Dict V → Dict V
map_values f [] = []
map_values f ((k, v) ∷ m) = (k, f v) ∷ map_values f m

-- The body of the loop that takes a removed task out of the other tasks' dependencies.
abbrev pub strip_dep : TaskId → Task → Task
strip_dep id t =
    if includes id t.depends_on then record t { depends_on = without id t.depends_on } else t

-- The set of each dependency loses the node.
unfoldable pub unlink_all : String → List String → Successors → Successors
unlink_all id [] s = s
unlink_all id (dep ∷ deps) s = unlink_all id deps (unlink dep id s)

unfoldable pub remove_task : Graph → TaskId → Outcome
remove_task graph id = do
  task ← require (get id graph.tasks) (task_missing id)
  throw_if (task.status != TaskStatus.pending && task.status != TaskStatus.cancelled)
      (task_not_removable id task.status)
  ok (record graph {
    tasks = delete id (map_values (strip_dep id) graph.tasks);
    task_successors = unlink_all id task.depends_on (delete id graph.task_successors);
  })

abbrev pub task_ids_of : FeatureId → List Task → List TaskId
task_ids_of id tasks = map (λ t. t.id) (keep (λ t. t.feature_id == id) tasks)

-- The loop that looks for a task of the feature which is not provided.
unfoldable pub check_provided : FeatureId → List TaskId → List TaskId → Result GraphError (Unit {0})
check_provided feature_id provided [] = ok tt
check_provided feature_id provided (id ∷ ids) = do
  throw_if (not (includes id provided)) (reorder_missing id feature_id)
  check_provided feature_id provided ids

-- The loop that numbers the tasks, from `index` on.
unfoldable pub renumber : ℕ → List TaskId → Dict Task → Dict Task
renumber index [] tasks = tasks
renumber index (id ∷ ids) tasks = renumber (suc index) ids (elim (get id tasks) [
  | none ↦ tasks
  | some task ↦ set id (record task { order_in_feature = index }) tasks
])

unfoldable pub reorder_tasks : Graph → FeatureId → List TaskId → Outcome
reorder_tasks graph feature_id task_ids = do
  throw_if (not (has feature_id graph.features)) (feature_missing feature_id)
  let feature_task_ids = task_ids_of feature_id (values graph.tasks)
  throw_if (length task_ids != length feature_task_ids)
      (reorder_count (length feature_task_ids) feature_id (length task_ids))
  check_provided feature_id task_ids feature_task_ids
  ok (record graph { tasks = renumber 0 task_ids graph.tasks })

unfoldable pub reweight : Graph → TaskId → TaskWeight → Outcome
reweight graph id weight = do
  task ← require (get id graph.tasks) (task_missing id)
  ok (record graph { tasks = set id (record task { weight = some weight }) graph.tasks })

-- `maxPos + 1`, where the maximum starts at -1.
unfoldable pub next_position : ℕ → List Milestone → ℕ
next_position next [] = next
next_position next (m ∷ rest) =
    next_position
      (elim m.steering_queue_position [
        | none ↦ next
        | some p ↦ if ltb next (suc p) then suc p else next
      ])
      rest

unfoldable pub queue_milestone : Graph → MilestoneId → Outcome
queue_milestone graph id = do
  milestone ← require (get id graph.milestones) (milestone_missing id)
  let position = next_position 0 (values graph.milestones)
  ok (record graph {
    milestones =
        set id (record milestone { steering_queue_position = some position }) graph.milestones;
  })

abbrev pub unqueued : Milestone → Milestone
unqueued m = record m { steering_queue_position = none }

unfoldable pub dequeue_milestone : Graph → MilestoneId → Outcome
dequeue_milestone graph id = do
  milestone ← require (get id graph.milestones) (milestone_missing id)
  ok (record graph { milestones = set id (unqueued milestone) graph.milestones })

unfoldable pub clear_queued_milestones : Graph → Graph
clear_queued_milestones graph = record graph {
  milestones =
      map_values (λ m. if is_some m.steering_queue_position then unqueued m else m)
        graph.milestones;
}

unfoldable pub change_milestone : Graph → FeatureId → MilestoneId → Outcome
change_milestone graph id new_milestone_id = do
  feature ← require (get id graph.features) (feature_missing id)
  throw_if (not (has new_milestone_id graph.milestones)) (milestone_missing new_milestone_id)
  let order =
      length (keep (λ f. f.milestone_id == new_milestone_id && f.id != id) (values graph.features))
  ok (record graph {
    features =
        set id (record feature { milestone_id = new_milestone_id; order_in_milestone = order })
          graph.features;
  })
