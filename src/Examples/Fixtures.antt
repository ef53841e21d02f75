-- ===== src/Examples/Fixtures.antt =====
-- A small graph, made by the operations of src/core/graph: two features, the second on the first, and
-- two tasks of the first, the second on the first.
use mathlib.Core.List.Memᴰ
use vcode.Base.{
  String, ◌≡◌, refl, List, [], ◌∷◌, Option, none, string_eq, includes, add_to_set, without,
}
use vcode.Base.Results.{ok, err}
use vcode.Types.Workflow.{UnitStatus}
use vcode.Graph.Store.{Graph, Outcome, link, unlink}
use vcode.Base.Dict.{get, set}
use vcode.Graph.Search.{nexts, has_path_via_successors, search, push_all, edge_count}
use vcode.Graph.Invariant.{IsWellFormed, DepsKnown}
use vcode.Graph.Creation.{
  CreateFeatureOptions, CreateTaskOptions, create_feature, create_task, check_feature_deps,
  check_task_deps, check_paths, link_all,
}
use vcode.Graph.Dependencies.{
  add_dependency, remove_dependency, add_feature_dependency, remove_feature_dependency,
  is_feature_dependency,
}
use vcode.Graph.Mutations.{remove_task}
use vcode.Graph.Creation.Laws.{create_feature-IsWellFormed, create_task-IsWellFormed}
use vcode.Graph.Dependencies.Laws.{add_dependency-IsWellFormed}

-- The graph that an operation leaves.
abbrev pub after : Graph → Outcome → Graph
after g (ok h) = h
after g (err e) = g

abbrev pub start : Graph
start = record {
  milestones =
      (
        "m-1",
        record {
          id = "m-1";
          name = "First";
          description = "";
          status = UnitStatus.pending;
          order = 0;
          steering_queue_position = none;
        },
      )
      ∷ [];
  features = [];
  tasks = [];
  feature_successors = [];
  task_successors = [];
  task_id_counter = 0;
  graph_version = 0;
}

pub start-IsWellFormed : IsWellFormed start
unfolding nexts get
start-IsWellFormed = record {
  features_indexed = λ u v. (λ m. absurd (Memᴰ.not-nil m), λ m. absurd (Memᴰ.not-nil m));
  features_acyclic = λ u v m. absurd (Memᴰ.not-nil m);
  tasks_indexed = λ u v. (λ m. absurd (Memᴰ.not-nil m), λ m. absurd (Memᴰ.not-nil m));
  tasks_acyclic = λ u v m. absurd (Memᴰ.not-nil m);
}

pub start-DepsKnown : DepsKnown start
unfolding get
start-DepsKnown = record {
  features_known = λ v u m. absurd (Memᴰ.not-nil m);
  tasks_known = λ v u m. absurd (Memᴰ.not-nil m);
}

abbrev pub feature_options : String → CreateFeatureOptions
feature_options id = record {
  id = id;
  milestone_id = "m-1";
  name = "Some feature";
  description = "";
  depends_on = none;
}

abbrev pub task_options : String → Option (List String) → CreateTaskOptions
task_options id deps = record {
  id = id;
  feature_id = "f-api";
  description = "";
  depends_on = deps;
  weight = none;
  reserved_write_paths = none;
  objective = none;
  scope = none;
  expected_files = none;
  references = none;
  outcome_verification = none;
}

abbrev pub with_api : Graph
with_api = after start (create_feature start (feature_options "f-api"))

pub api_created : create_feature start (feature_options "f-api") ≡ ok with_api
unfolding create_feature get set includes check_feature_deps check_paths link_all
api_created = refl

abbrev pub with_ui : Graph
with_ui = after with_api (create_feature with_api (feature_options "f-ui"))

pub ui_created : create_feature with_api (feature_options "f-ui") ≡ ok with_ui
unfolding create_feature get set includes check_feature_deps check_paths link_all
ui_created = refl

abbrev pub with_task : Graph
with_task = after with_ui (create_task with_ui (task_options "t-1" none))

pub task_created : create_task with_ui (task_options "t-1" none) ≡ ok with_task
unfolding create_task create_feature get set includes check_feature_deps check_task_deps check_paths
    link_all
task_created = refl

abbrev pub linked : Graph
linked = after with_task (add_dependency with_task "f-ui" "f-api")

pub link_added : add_dependency with_task "f-ui" "f-api" ≡ ok linked
unfolding add_dependency add_feature_dependency is_feature_dependency create_task create_feature get
    set includes check_feature_deps check_task_deps check_paths link_all link
    has_path_via_successors search nexts push_all edge_count add_to_set
link_added = refl

abbrev pub unlinked : Graph
unlinked = after linked (remove_dependency linked "f-ui" "f-api")

pub link_removed : remove_dependency linked "f-ui" "f-api" ≡ ok unlinked
unfolding remove_dependency remove_feature_dependency add_dependency add_feature_dependency
    is_feature_dependency create_task create_feature get set includes check_feature_deps
    check_task_deps check_paths link_all link has_path_via_successors search nexts push_all
    edge_count add_to_set without unlink
link_removed = refl

abbrev pub without_task : Graph
without_task = after with_task (remove_task with_task "t-1")

pub task_removed : remove_task with_task "t-1" ≡ ok without_task
unfolding remove_task create_task create_feature get set includes check_feature_deps check_task_deps
    check_paths link_all
task_removed = refl

pub api-kept : IsWellFormed with_api × DepsKnown with_api
api-kept =
    create_feature-IsWellFormed start with_api (feature_options "f-api") start-IsWellFormed
      start-DepsKnown api_created

pub ui-kept : IsWellFormed with_ui × DepsKnown with_ui
ui-kept =
    create_feature-IsWellFormed with_api with_ui (feature_options "f-ui") api-kept.0 api-kept.1
      ui_created

pub task-kept : IsWellFormed with_task × DepsKnown with_task
task-kept =
    create_task-IsWellFormed with_ui with_task (task_options "t-1" none) ui-kept.0 ui-kept.1
      task_created

pub linked-IsWellFormed : IsWellFormed linked
linked-IsWellFormed =
    add_dependency-IsWellFormed with_task linked "f-ui" "f-api" task-kept.0 link_added
