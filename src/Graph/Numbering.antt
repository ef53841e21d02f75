-- ===== src/Graph/Numbering.antt =====
-- The numbers in ids: `addTask` of src/core/graph/task-mutations.ts and `initTaskIdCounter` of
-- src/core/graph/validation.ts.
pub mod Fresh
pub mod Added
use vcode.Base.{ℕ, String, Bool, List, [], ◌∷◌, Option}
use vcode.Base.Dict.{Dict, keys}
use vcode.Types.Workflow.{TaskWeight, FeatureId, TaskId}
use vcode.Decimal.{◌∷◌ as char_cons, larger}
use vcode.Doubles.{number_text, next_number, parse_int}
use vcode.Naming.{strip_prefix}
use vcode.Graph.Store.{Graph, Outcome}
use vcode.Graph.Creation.{CreateTaskOptions, create_task}

pub record AddTaskOptions : Type 0 where
  pub feature_id : FeatureId
  pub description : String
  pub deps : Option (List TaskId)
  pub weight : Option TaskWeight
  pub reserved_write_paths : Option (List String)
  pub objective : Option String
  pub scope : Option String
  pub expected_files : Option (List String)
  pub references : Option (List String)
  pub outcome_verification : Option String

-- The loop over the keys that keeps the largest number that `number` reads in one.
unfoldable pub highest : (String → Option (Bool × ℕ)) → List String → ℕ → ℕ
highest number [] max = max
highest number (k ∷ ks) max = highest number ks (larger (number k) max)

-- `Number.parseInt(taskId.slice(2), 10)`
abbrev pub task_number : TaskId → Option (Bool × ℕ)
task_number id = parse_int (strip_prefix id)

-- `t-${n}`
abbrev pub task_id : ℕ → TaskId
task_id n = char_cons "t" (char_cons "-" (number_text n))

unfoldable pub init_task_id_counter : Graph → Graph
init_task_id_counter graph = record graph {
  task_id_counter = highest task_number (keys graph.tasks) 0;
}

-- The graph with the counter of the next task, which `addTask` leaves also where it throws.
unfoldable pub next_task : Graph → Graph
next_task graph = record graph {
  task_id_counter = next_number (highest task_number (keys graph.tasks) graph.task_id_counter);
}

abbrev pub numbered_options : TaskId → AddTaskOptions → CreateTaskOptions
numbered_options id opts = record {
  id = id;
  feature_id = opts.feature_id;
  description = opts.description;
  depends_on = opts.deps;
  weight = opts.weight;
  reserved_write_paths = opts.reserved_write_paths;
  objective = opts.objective;
  scope = opts.scope;
  expected_files = opts.expected_files;
  references = opts.references;
  outcome_verification = opts.outcome_verification;
}

unfoldable pub add_task : Graph → AddTaskOptions → Outcome
add_task graph opts =
    let counted = next_task graph in
    create_task counted (numbered_options (task_id counted.task_id_counter) opts)
