-- ===== src/Examples/Graphs.antt =====
-- The theorems on the graph of src/core/graph at a small graph.
use vcode.Base.{
  suc, ◌≡◌, refl, ◌↔◌, ◌⊎◌, inr, [], ◌∷◌, none, some, true, false, Memᴰ, string_eq, includes,
  add_to_set,
}
use vcode.Base.Dict.{get, set, values, Every, Every-set}
use vcode.Base.Results.{ok, err}
use vcode.Types.Workflow.{UnitStatus, TaskStatus, ready}
use vcode.Types.Domain.{Feature, Task}
use vcode.Fsm.Laws
use vcode.Fsm.Feature.{validate_feature_transition, validate_feature_status_transition}
use vcode.Fsm.Task.{validate_task_transition, validate_task_status_transition}
use vcode.Graph.Store.{Graph, feature_cycle, link}
use vcode.Graph.Search.{search, edge_count, has_path_via_successors, nexts, push_all}
use vcode.Graph.Search.Fuel.{search_answers}
use vcode.Graph.Search.Correct.{Reaches, has_path_iff}
use vcode.Graph.Invariant.{IsWellFormed, DepsKnown, feature_deps}
use vcode.Graph.Creation.{
  new_feature, new_task, create_feature, create_task, check_feature_deps, check_task_deps,
  check_paths, link_all, next_feature_order, next_task_order,
}
use vcode.Graph.Mutations.Laws.{remove_task-IsWellFormed}
use vcode.Graph.Dependencies.{add_dependency, add_feature_dependency, is_feature_dependency}
use vcode.Graph.Dependencies.Laws.{add_dependency-IsWellFormed}
use vcode.Graph.Dependencies.Cycles.{DependsOn, add_feature_cycle_iff}
use vcode.Graph.Transitions.{
  FeatureTransitionPatch, TaskTransitionPatch, transition_feature, transition_task, triple_of,
}
use vcode.Graph.Transitions.Laws.{
  AllReachable, IsTidy, transition_feature-AllReachable, transition_task-IsTidy,
}
use vcode.Graph.Queries.{ready_features, ready_tasks, is_ready_feature}
use vcode.Graph.Queries.Laws.{FeatureIsReady, TaskIsReady, mem-ready_features, mem-ready_tasks}
use vcode.Examples.Fixtures.{
  after, feature_options, task_options, with_api, with_task, linked, link_added, without_task,
  task_removed, task-kept, linked-IsWellFormed,
}

search_answers_example :
    search
      (suc (suc (edge_count linked.feature_successors)))
      "f-ui"
      linked.feature_successors
      []
      ("f-api" ∷ [])
    ≡ some (has_path_via_successors "f-api" "f-ui" linked.feature_successors)
search_answers_example = search_answers "f-api" "f-ui" linked.feature_successors

has_path_iff_example :
    (has_path_via_successors "f-api" "f-ui" linked.feature_successors ≡ true)
    ↔ Reaches linked.feature_successors "f-api" "f-ui"
has_path_iff_example = has_path_iff "f-api" "f-ui" linked.feature_successors

remove_task-IsWellFormed_example :
    ((t : Task) × (get "t-1" with_task.tasks ≡ some t)
      × ((t.status ≡ TaskStatus.pending) ⊎ (t.status ≡ TaskStatus.cancelled)))
    × (get "t-1" without_task.tasks ≡ none)
    × IsWellFormed without_task
    × DepsKnown without_task
remove_task-IsWellFormed_example =
    remove_task-IsWellFormed with_task without_task "t-1" task-kept.0 task-kept.1 task_removed

add_dependency-IsWellFormed_example : IsWellFormed linked
add_dependency-IsWellFormed_example =
    add_dependency-IsWellFormed with_task linked "f-ui" "f-api" task-kept.0 link_added

abbrev api : Feature
api = new_feature (feature_options "f-api") 0

abbrev ui : Feature
ui = record (new_feature (feature_options "f-ui") 1) { depends_on = "f-api" ∷ [] }

api_found : get "f-api" linked.features ≡ some api
unfolding add_dependency add_feature_dependency is_feature_dependency create_task create_feature get
    set includes check_feature_deps check_task_deps check_paths link_all link
    has_path_via_successors search nexts push_all edge_count add_to_set next_feature_order values
api_found = refl

ui_found : get "f-ui" linked.features ≡ some ui
unfolding add_dependency add_feature_dependency is_feature_dependency create_task create_feature get
    set includes check_feature_deps check_task_deps check_paths link_all link
    has_path_via_successors search nexts push_all edge_count add_to_set next_feature_order values
ui_found = refl

api_alone : includes "f-ui" api.depends_on ≡ false
unfolding includes
api_alone = refl

add_feature_cycle_iff_example :
    (add_feature_dependency linked "f-api" "f-ui" ≡ err (feature_cycle "f-api" "f-ui"))
    ↔ DependsOn (feature_deps linked.features) "f-ui" "f-api"
add_feature_cycle_iff_example =
    add_feature_cycle_iff linked "f-api" "f-ui" api ui linked-IsWellFormed api_found ui_found
      api_alone

cycle_refused : add_feature_dependency linked "f-api" "f-ui" ≡ err (feature_cycle "f-api" "f-ui")
unfolding add_dependency add_feature_dependency is_feature_dependency create_task create_feature get
    set includes check_feature_deps check_task_deps check_paths link_all link
    has_path_via_successors search nexts push_all edge_count add_to_set
cycle_refused = refl

abbrev begin_work : FeatureTransitionPatch
begin_work = record {
  work_control = none;
  status = some UnitStatus.in_progress;
  collab_control = none;
}

abbrev begun : Graph
begun = after with_api (transition_feature with_api "f-api" begin_work)

work_begun : transition_feature with_api "f-api" begin_work ≡ ok begun
unfolding transition_feature validate_feature_transition validate_feature_status_transition
    create_feature get set includes check_feature_deps check_paths link_all
work_begun = refl

api_reachable : AllReachable with_api.features
unfolding create_feature get set includes check_feature_deps check_paths link_all next_feature_order
    values
api_reachable =
    Every-set (λ _ f. Laws.Reach Laws.initial (triple_of f)) "f-api" api [] (λ k x e. cc) Laws.here

transition_feature-AllReachable_example : AllReachable begun.features
transition_feature-AllReachable_example =
    transition_feature-AllReachable with_api begun "f-api" begin_work api_reachable work_begun

abbrev make_ready : TaskTransitionPatch
make_ready = record {
  status = some ready;
  collab_control = none;
  result = none;
  suspend_reason = none;
  suspended_at = none;
  suspended_files = none;
  blocked_by_feature_id = none;
}

abbrev readied : Graph
readied = after with_task (transition_task with_task "t-1" make_ready)

task_readied : transition_task with_task "t-1" make_ready ≡ ok readied
unfolding transition_task validate_task_transition validate_task_status_transition create_feature
    get set includes check_feature_deps check_paths link_all create_task check_task_deps
task_readied = refl

task-IsTidy : Every (λ _ t. IsTidy t) with_task.tasks
unfolding create_feature get set includes check_feature_deps check_paths link_all create_task
    check_task_deps next_feature_order next_task_order values
task-IsTidy =
    Every-set (λ _ t. IsTidy t) "t-1" (new_task (task_options "t-1" none) api 0) [] (λ k x e. cc)
      (λ _. (refl, refl, refl, refl))

transition_task-IsTidy_example : Every (λ _ t. IsTidy t) readied.tasks
transition_task-IsTidy_example =
    transition_task-IsTidy with_task readied "t-1" make_ready task-IsTidy
      (inr (refl, refl, refl, refl)) task_readied

mem-ready_features_example :
    Memᴰ api (ready_features linked)
    ↔ (Memᴰ api (values linked.features) × FeatureIsReady linked.features api)
mem-ready_features_example = mem-ready_features linked api

abbrev first_task : Task
first_task = new_task (task_options "t-1" none) api 0

mem-ready_tasks_example : Memᴰ first_task (ready_tasks readied) ↔ (
    Memᴰ first_task (values readied.tasks) × TaskIsReady readied.features readied.tasks first_task)
mem-ready_tasks_example = mem-ready_tasks readied first_task

ready_features_test : ready_features linked ≡ api ∷ []
unfolding ready_features is_ready_feature values add_dependency add_feature_dependency
    is_feature_dependency create_task create_feature get set includes check_feature_deps
    check_task_deps check_paths link_all link has_path_via_successors search nexts push_all
    edge_count add_to_set next_feature_order
ready_features_test = refl
