-- ===== src/Graph/Features.antt =====
-- src/core/graph/feature-mutations.ts: cancelling, removing and editing a feature; and
-- src/core/graph/usage-mutations.ts. `changeMilestone` is in Mutations.
pub mod Removal
pub mod Cancel
pub mod Kept
use vcode.Base.{
  ℕ, zero, suc, String, Bool, true, false, not, ◌&&◌, List, [], ◌∷◌, Option, none, some, ◌==◌, ◌!=◌,
  string_eq, includes, without, if◌then◌else◌, or_else, length, keep, map, is_some, add_to_set,
}
use vcode.Base.Dict.{Dict, get, set, has, values, delete, keys}
use vcode.Base.Results.{Result, ok, err, ◌>>=◌, ◌>>◌, throw_if}
use vcode.Types.Workflow.{
  FeatureCollabControl, TaskStatus, FeatureId, TaskId, work_complete, work_control_eq,
  feature_collab_eq, task_status_eq,
}
use vcode.Types.Payload.{TokenUsageAggregate, VerifyIssue}
use vcode.Types.Domain.{Feature, Task}
use vcode.Graph.Search.{Successors, nexts}
use vcode.Graph.Store.{
  Graph, GraphError, Outcome, require, unlink, feature_missing, task_missing,
  edit_cancelled_feature, edit_completed_feature,
}
use vcode.Graph.Mutations.{map_values, strip_dep, task_ids_of}
use vcode.Graph.Transitions.{override}

-- The feature without `runtimeBlockedByFeatureId` and with `collabControl: 'cancelled'`.
abbrev pub cancelled_feature : Feature → Feature
cancelled_feature f = record f {
  runtime_blocked_by_feature_id = none;
  collab_control = FeatureCollabControl.cancelled;
}

-- The body of the loop over the tasks.
abbrev pub cancelled_task : FeatureId → Task → Task
cancelled_task id t =
    if t.feature_id == id && t.status != TaskStatus.done && t.status != TaskStatus.cancelled
    then record t { status = TaskStatus.cancelled }
    else t

-- What `cancelFeature` does before it looks at `cascade`.
unfoldable pub mark_cancelled : FeatureId → Feature → Graph → Graph
mark_cancelled id f graph = record graph {
  features = set id (cancelled_feature f) graph.features;
  tasks = map_values (cancelled_task id) graph.tasks;
}

-- The loop over the successors, which calls `visit` for each that is there and not cancelled;
-- `none` means that the fuel of a call ran out.
unfoldable pub cascade_over :
    (Graph → FeatureId → Feature → Option Graph) → List FeatureId → Graph → Option Graph
cascade_over visit [] graph = some graph
cascade_over visit (id ∷ ids) graph = elim (get id graph.features) [
  | none ↦ cascade_over visit ids graph
  | some f ↦ elim (f.collab_control == FeatureCollabControl.cancelled) [
    | true ↦ cascade_over visit ids graph
    | false ↦ elim (visit graph id f) [ none ↦ none | some graph' ↦ cascade_over visit ids graph' ]
  ]
]

-- `cancelFeature(graph, id, true)` for a feature that is there.
unfoldable pub cancel_cascade : ℕ → Graph → FeatureId → Feature → Option Graph
cancel_cascade zero graph id f = none
cancel_cascade (suc fuel) graph id f =
    cascade_over (cancel_cascade fuel) (nexts id graph.feature_successors)
      (mark_cancelled id f graph)

-- A call cancels a feature that was not cancelled, apart from the first.
abbrev pub cancel_fuel : Graph → ℕ
cancel_fuel graph = suc (length graph.features)

unfoldable pub cancel_feature : Graph → FeatureId → Bool → Outcome
cancel_feature graph id cascade = do
  f ← require (get id graph.features) (feature_missing id)
  ok (
      if cascade
      then or_else (cancel_cascade (cancel_fuel graph) graph id f) graph
      else mark_cancelled id f graph)

-- The body of the loop that takes a removed feature out of the others' dependencies.
abbrev pub strip_feature_dep : FeatureId → Feature → Feature
strip_feature_dep id f =
    if includes id f.depends_on then record f { depends_on = without id f.depends_on } else f

abbrev pub is_empty_set : Option (List String) → Bool
is_empty_set none = false
is_empty_set (some []) = true
is_empty_set (some (x ∷ xs)) = false

-- The set of `dep` loses the node, and an empty set is removed.
unfoldable pub unlink_clean : String → String → Successors → Successors
unlink_clean dep id s =
    let less = unlink dep id s in if is_empty_set (get dep less) then delete dep less else less

unfoldable pub unlink_clean_all : String → List String → Successors → Successors
unlink_clean_all id [] s = s
unlink_clean_all id (dep ∷ deps) s = unlink_clean_all id deps (unlink_clean dep id s)

-- The body of the loop over the feature's tasks.
unfoldable pub remove_owned_task : Graph → TaskId → Graph
remove_owned_task graph id = elim (get id graph.tasks) [
  | none ↦ graph
  | some task ↦ record graph {
    tasks = delete id (map_values (strip_dep id) graph.tasks);
    task_successors = delete id (unlink_clean_all id task.depends_on graph.task_successors);
  }
]

unfoldable pub remove_owned_tasks : List TaskId → Graph → Graph
remove_owned_tasks [] graph = graph
remove_owned_tasks (id ∷ ids) graph = remove_owned_tasks ids (remove_owned_task graph id)

-- The steps of `removeFeature` on the features and their index.
unfoldable pub remove_node : FeatureId → Feature → Graph → Graph
remove_node id f graph = record graph {
  features = delete id (map_values (strip_feature_dep id) graph.features);
  feature_successors = delete id (unlink_clean_all id f.depends_on graph.feature_successors);
}

unfoldable pub remove_feature : Graph → FeatureId → Outcome
remove_feature graph id = do
  f ← require (get id graph.features) (feature_missing id)
  ok (remove_node id f (remove_owned_tasks (task_ids_of id (values graph.tasks)) graph))

-- `runtimeBlockedByFeatureId` of a patch: not in the object, there as `undefined`, or with a value.
pub data BlockUpdate : Type 0 where
  keep_block no_block : BlockUpdate
  block_by : FeatureId → BlockUpdate

pub record FeatureEditPatch : Type 0 where
  pub name : Option String
  pub description : Option String
  pub summary : Option String
  pub rough_draft : Option String
  pub discuss_output : Option String
  pub research_output : Option String
  pub feature_objective : Option String
  pub feature_dod : Option (List String)
  pub verify_issues : Option (List VerifyIssue)
  pub runtime_blocked_by_feature_id : BlockUpdate
  pub main_merge_sha : Option String
  pub branch_head_sha : Option String

abbrev pub update_block : BlockUpdate → Option FeatureId → Option FeatureId
update_block keep_block old = old
update_block no_block old = none
update_block (block_by id) old = some id

abbrev pub edited_feature : Feature → FeatureEditPatch → Feature
edited_feature f patch = record f {
  name = or_else patch.name f.name;
  description = or_else patch.description f.description;
  summary = override patch.summary f.summary;
  rough_draft = override patch.rough_draft f.rough_draft;
  discuss_output = override patch.discuss_output f.discuss_output;
  research_output = override patch.research_output f.research_output;
  feature_objective = override patch.feature_objective f.feature_objective;
  feature_dod = override patch.feature_dod f.feature_dod;
  verify_issues = override patch.verify_issues f.verify_issues;
  runtime_blocked_by_feature_id =
      update_block patch.runtime_blocked_by_feature_id f.runtime_blocked_by_feature_id;
  main_merge_sha = override patch.main_merge_sha f.main_merge_sha;
  branch_head_sha = override patch.branch_head_sha f.branch_head_sha;
}

unfoldable pub edit_feature : Graph → FeatureId → FeatureEditPatch → Outcome
edit_feature graph id patch = do
  f ← require (get id graph.features) (feature_missing id)
  throw_if (f.collab_control == FeatureCollabControl.cancelled) (edit_cancelled_feature id)
  throw_if (f.work_control == work_complete && f.collab_control == FeatureCollabControl.merged)
      (edit_completed_feature id)
  ok (record graph { features = set id (edited_feature f patch) graph.features })

pub record UsageRollupPatch : Type 0 where
  pub features : Dict (Option TokenUsageAggregate)
  pub tasks : Dict (Option TokenUsageAggregate)

-- The loop over `Object.keys` of a patch.
unfoldable pub check_known {ℓ} :
    {V : Type ℓ} → (String → GraphError) → Dict V → List String → Result GraphError (Unit {0})
check_known error m [] = ok tt
check_known error m (id ∷ ids) = do throw_if (not (has id m)) (error id); check_known error m ids

-- A map's values changed in place by a loop over its entries that reads the keys.
unfoldable pub map_entries {ℓ} : {V : Type ℓ} → (String → V → V) → Dict V → Dict V
map_entries f [] = []
map_entries f ((k, v) ∷ m) = (k, f k v) ∷ map_entries f m

-- `patch.features[featureId]`: `undefined` for a missing key too.
abbrev pub next_usage : Dict (Option TokenUsageAggregate) → String → Option TokenUsageAggregate
next_usage m id = or_else (get id m) none

unfoldable pub replace_usage_rollups : Graph → UsageRollupPatch → Outcome
replace_usage_rollups graph patch = do
  check_known feature_missing graph.features (keys patch.features)
  check_known task_missing graph.tasks (keys patch.tasks)
  ok (record graph {
    features =
        map_entries (λ id f. record f { token_usage = next_usage patch.features id })
          graph.features;
    tasks = map_entries (λ id t. record t { token_usage = next_usage patch.tasks id }) graph.tasks;
  })
