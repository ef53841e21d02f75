-- ===== src/Graph/Dependencies.antt =====
-- src/core/graph/dependencies.ts: adding and removing a dependency between features or tasks.
pub mod Laws
pub mod Cycles
use text.Mathlib.Text.{starts_with}
use vcode.Base.{
  String, Bool, List, [], ◌∷◌, ◌++◌, ◌!=◌, includes, not, string_eq, without, if◌then◌else◌,
}
use vcode.Base.Dict.{get, set}
use vcode.Base.Results.{Result, ok, ◌>>=◌, ◌>>◌, throw_if}
use vcode.Types.Workflow.{FeatureId, TaskId}
use vcode.Types.Domain.{Feature, Task}
use vcode.Graph.Search.{has_path_via_successors}
use vcode.Graph.Store.{
  Graph, GraphError, Outcome, require, link, unlink, feature_missing, task_missing,
  feature_already_depends, feature_not_depends, task_already_depends, task_not_depends,
  feature_cycle, task_cycle, tasks_of_different_features,
}

-- `isFeatureDependency(opts)`, by the field `from`.
unfoldable pub is_feature_dependency : String → Bool
is_feature_dependency from = starts_with from "f-"

unfoldable pub add_feature_dependency : Graph → FeatureId → FeatureId → Outcome
add_feature_dependency graph from to = do
  source ← require (get from graph.features) (feature_missing from)
  target ← require (get to graph.features) (feature_missing to)
  throw_if (includes to source.depends_on) (feature_already_depends from to)
  throw_if (has_path_via_successors from to graph.feature_successors) (feature_cycle from to)
  ok (record graph {
    features =
        set from (record source { depends_on = source.depends_on ++ to ∷ [] }) graph.features;
    feature_successors = link to from graph.feature_successors;
  })

unfoldable pub remove_feature_dependency : Graph → FeatureId → FeatureId → Outcome
remove_feature_dependency graph from to = do
  source ← require (get from graph.features) (feature_missing from)
  throw_if (not (includes to source.depends_on)) (feature_not_depends from to)
  ok (record graph {
    features =
        set from (record source { depends_on = without to source.depends_on }) graph.features;
    feature_successors = unlink to from graph.feature_successors;
  })

unfoldable pub add_task_dependency : Graph → TaskId → TaskId → Outcome
add_task_dependency graph from to = do
  source ← require (get from graph.tasks) (task_missing from)
  target ← require (get to graph.tasks) (task_missing to)
  throw_if (source.feature_id != target.feature_id)
      (tasks_of_different_features from source.feature_id to target.feature_id)
  throw_if (includes to source.depends_on) (task_already_depends from to)
  throw_if (has_path_via_successors from to graph.task_successors) (task_cycle from to)
  ok (record graph {
    tasks = set from (record source { depends_on = source.depends_on ++ to ∷ [] }) graph.tasks;
    task_successors = link to from graph.task_successors;
  })

unfoldable pub remove_task_dependency : Graph → TaskId → TaskId → Outcome
remove_task_dependency graph from to = do
  source ← require (get from graph.tasks) (task_missing from)
  throw_if (not (includes to source.depends_on)) (task_not_depends from to)
  ok (record graph {
    tasks = set from (record source { depends_on = without to source.depends_on }) graph.tasks;
    task_successors = unlink to from graph.task_successors;
  })

-- `InMemoryFeatureGraph.addDependency` and `removeDependency`.
unfoldable pub add_dependency : Graph → String → String → Outcome
add_dependency graph from to =
    if is_feature_dependency from
    then add_feature_dependency graph from to
    else add_task_dependency graph from to

unfoldable pub remove_dependency : Graph → String → String → Outcome
remove_dependency graph from to =
    if is_feature_dependency from
    then remove_feature_dependency graph from to
    else remove_task_dependency graph from to
