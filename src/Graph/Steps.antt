-- ===== src/Graph/Steps.antt =====
-- Runs of the operations of src/core/graph and of proposals, from the empty graph of the constructor of
-- `InMemoryFeatureGraph` without a snapshot.
use mathlib.Core.List.Memᴰ
use vcode.Base.{String, Bool, List, some, ◌≡◌, refl, sym, subst, arith, [], string_eq}
use vcode.Base.Dict.{get, set}
use vcode.Base.Results.{ok}
use vcode.Types.Domain.{Feature, Task}
use vcode.Graph.Store.{Graph}
use vcode.Graph.Search.{nexts}
use vcode.Graph.Invariant.{IsWellFormed, DepsKnown, deps_in-keep}
use vcode.Graph.Creation.{
  CreateMilestoneOptions, CreateFeatureOptions, CreateTaskOptions, create_milestone, create_feature,
  create_task,
}
use vcode.Graph.Dependencies.{add_dependency, remove_dependency}
use vcode.Graph.Mutations.{
  TaskEditPatch, edit_task, remove_task, reorder_tasks, reweight, queue_milestone,
  dequeue_milestone, clear_queued_milestones, change_milestone,
}
use vcode.Graph.Mutations.Kept.{
  frame, set_feature-IsConsistent, create_milestone-IsConsistent, create_feature-IsConsistent,
  create_task-IsConsistent, edit_task-IsConsistent, remove_task-IsConsistent, reweight-IsConsistent,
  reorder_tasks-IsConsistent, change_milestone-IsConsistent, edit_feature-IsConsistent,
  add_dependency-IsConsistent, remove_dependency-IsConsistent, queue_milestone-IsConsistent,
  dequeue_milestone-IsConsistent,
}
use vcode.Graph.Features.{
  FeatureEditPatch, UsageRollupPatch, replace_usage_rollups, cancel_feature, remove_feature,
  edit_feature,
}
use vcode.Graph.Features.Kept.{replace_usage_rollups-IsConsistent, cancel_feature-IsConsistent}
use vcode.Graph.Features.Removal.{remove_feature-IsConsistent}
use vcode.Graph.Numbering.{AddTaskOptions, add_task, next_task, task_id, numbered_options}
use vcode.Graph.Side.{IsConsistent, IsConsistent-of, IsWellFormed-of, DepsKnown-of}
use vcode.Types.Workflow.{TaskWeight}
use vcode.Proposals.{GraphProposal, ProposalApplyResult}
use vcode.Proposals.Apply.{apply_graph_proposal}
use vcode.Proposals.Apply.Kept.{apply_graph_proposal-IsConsistent}
use vcode.Graph.Transitions.{
  FeatureTransitionPatch, TaskTransitionPatch, MergeTrainUpdate, update_merge_train_state,
  with_merge_train, transition_feature, transition_task, proposed_triple, with_triple, patched,
  without_suspension,
}
use vcode.Graph.Transitions.Laws.{
  feature-eq-ok, task-eq-ok, task_after, transition_feature-IsWellFormed,
}
use vcode.Graph.Known.{IsKnown-keep}

task_after-deps :
    (t : Task) (patch : TaskTransitionPatch) → (task_after t patch).depends_on ≡ t.depends_on
unfolding patched without_suspension
task_after-deps t patch = ground arith

transition_feature-DepsKnown :
    (g h : Graph) (id : String) (patch : FeatureTransitionPatch)
    → DepsKnown g
    → transition_feature g id patch ≡ ok h
    → DepsKnown h
transition_feature-DepsKnown g h id patch known e =
    let (f, at, _, same) = feature-eq-ok g h id patch e in
    subst DepsKnown (sym same) (record {
      features_known =
          IsKnown-keep _ g.features id id f (with_triple f (proposed_triple f patch))
            known.features_known at refl;
      tasks_known = known.tasks_known;
    })

transition_task-kept :
    (g h : Graph) (id : String) (patch : TaskTransitionPatch)
    → IsWellFormed g
    → DepsKnown g
    → transition_task g id patch ≡ ok h
    → IsWellFormed h × DepsKnown h
transition_task-kept g h id patch wf known e =
    let (t, at, _, same) = task-eq-ok g h id patch e in
    let deps = task_after-deps t patch in
    subst (λ k. IsWellFormed k × DepsKnown k) (sym same)
      (
        record {
          features_indexed = wf.features_indexed;
          features_acyclic = wf.features_acyclic;
          tasks_indexed = λ u v.
              rw (deps_in-keep (λ x. x.depends_on) id v t (task_after t patch) g.tasks at deps)
                (wf.tasks_indexed u v);
          tasks_acyclic = wf.tasks_acyclic;
        },
        record {
          features_known = known.features_known;
          tasks_known =
              IsKnown-keep _ g.tasks id id t (task_after t patch) known.tasks_known at deps;
        },
      )

update_merge_train_state-IsConsistent :
    (g h : Graph) (id : String) (fields : MergeTrainUpdate)
    → IsConsistent g
    → update_merge_train_state g id fields ≡ ok h
    → IsConsistent h
unfolding update_merge_train_state
update_merge_train_state-IsConsistent g h id fields c e =
    let (f, at, same) : (f : Feature) × (get id g.features ≡ some f)
        × (h ≡ record g { features = set id (with_merge_train f fields) g.features }) =
      ground arith in
    set_feature-IsConsistent g h id f (with_merge_train f fields) at refl same c

add_task-IsConsistent :
    (g h : Graph) (opts : AddTaskOptions) → IsConsistent g → add_task g opts ≡ ok h → IsConsistent h
unfolding add_task next_task
add_task-IsConsistent g h opts c e =
    let counted = next_task g in
    create_task-IsConsistent counted h (numbered_options (task_id counted.task_id_counter) opts)
      (frame g counted refl refl refl refl c) e

clear-IsConsistent : (g : Graph) → IsConsistent g → IsConsistent (clear_queued_milestones g)
unfolding clear_queued_milestones
clear-IsConsistent g c = frame g (clear_queued_milestones g) refl refl refl refl c

-- A call of an operation that returns, by the graph before and after.
pub data GraphStep (g h : Graph) : Type 0 where
  milestone_created :
      (opts : CreateMilestoneOptions) → create_milestone g opts ≡ ok h → GraphStep g h
  feature_created : (opts : CreateFeatureOptions) → create_feature g opts ≡ ok h → GraphStep g h
  task_created : (opts : CreateTaskOptions) → create_task g opts ≡ ok h → GraphStep g h
  task_added : (opts : AddTaskOptions) → add_task g opts ≡ ok h → GraphStep g h
  task_removed : (id : String) → remove_task g id ≡ ok h → GraphStep g h
  task_edited : (id : String) (patch : TaskEditPatch) → edit_task g id patch ≡ ok h → GraphStep g h
  task_reweighted :
      (id : String) (weight : TaskWeight) → reweight g id weight ≡ ok h → GraphStep g h
  tasks_reordered :
      (id : String) (ids : List String) → reorder_tasks g id ids ≡ ok h → GraphStep g h
  dependency_added : (from to : String) → add_dependency g from to ≡ ok h → GraphStep g h
  dependency_removed : (from to : String) → remove_dependency g from to ≡ ok h → GraphStep g h
  feature_moved :
      (id : String) (patch : FeatureTransitionPatch)
      → transition_feature g id patch ≡ ok h
      → GraphStep g h
  task_moved :
      (id : String) (patch : TaskTransitionPatch)
      → transition_task g id patch ≡ ok h
      → GraphStep g h
  feature_edited :
      (id : String) (patch : FeatureEditPatch) → edit_feature g id patch ≡ ok h → GraphStep g h
  feature_reassigned : (id m : String) → change_milestone g id m ≡ ok h → GraphStep g h
  feature_cancelled :
      (id : String) (cascade : Bool) → cancel_feature g id cascade ≡ ok h → GraphStep g h
  feature_removed : (id : String) → remove_feature g id ≡ ok h → GraphStep g h
  usage_replaced : (patch : UsageRollupPatch) → replace_usage_rollups g patch ≡ ok h → GraphStep g h
  train_updated :
      (id : String) (fields : MergeTrainUpdate)
      → update_merge_train_state g id fields ≡ ok h
      → GraphStep g h
  milestone_queued : (id : String) → queue_milestone g id ≡ ok h → GraphStep g h
  milestone_dequeued : (id : String) → dequeue_milestone g id ≡ ok h → GraphStep g h
  queue_cleared : h ≡ clear_queued_milestones g → GraphStep g h
  proposal_applied :
      (proposal : GraphProposal) (result : ProposalApplyResult)
      → apply_graph_proposal g proposal ≡ some (h, result)
      → GraphStep g h

abbrev pub empty_graph : Graph
empty_graph = record {
  milestones = [];
  features = [];
  tasks = [];
  feature_successors = [];
  task_successors = [];
  task_id_counter = 0;
  graph_version = 0;
}

pub data GraphReach : Graph → Type 0 where
  at_start : GraphReach empty_graph
  then_step : {g h : Graph} → GraphReach g → GraphStep g h → GraphReach h

empty-kept : IsWellFormed empty_graph × DepsKnown empty_graph
unfolding nexts get
empty-kept = (
  record {
    features_indexed = λ u v. (λ m. absurd (Memᴰ.not-nil m), λ m. absurd (Memᴰ.not-nil m));
    features_acyclic = λ u v m. absurd (Memᴰ.not-nil m);
    tasks_indexed = λ u v. (λ m. absurd (Memᴰ.not-nil m), λ m. absurd (Memᴰ.not-nil m));
    tasks_acyclic = λ u v m. absurd (Memᴰ.not-nil m);
  },
  record {
    features_known = λ v u m. absurd (Memᴰ.not-nil m);
    tasks_known = λ v u m. absurd (Memᴰ.not-nil m);
  },
)

transitions-kept :
    (g h : Graph) (id : String) (patch : FeatureTransitionPatch)
    → IsConsistent g
    → transition_feature g id patch ≡ ok h
    → IsConsistent h
transitions-kept g h id patch c e = IsConsistent-of h (
  transition_feature-IsWellFormed g h id patch (IsWellFormed-of g c) e,
  transition_feature-DepsKnown g h id patch (DepsKnown-of g c) e,
)

GraphStep-kept : (g h : Graph) → GraphStep g h → IsConsistent g → IsConsistent h
GraphStep-kept g h (milestone_created opts e) c = create_milestone-IsConsistent g h opts c e
GraphStep-kept g h (feature_created opts e) c = create_feature-IsConsistent g h opts c e
GraphStep-kept g h (task_created opts e) c = create_task-IsConsistent g h opts c e
GraphStep-kept g h (task_added opts e) c = add_task-IsConsistent g h opts c e
GraphStep-kept g h (task_removed id e) c = remove_task-IsConsistent g h id c e
GraphStep-kept g h (task_edited id patch e) c = edit_task-IsConsistent g h id patch c e
GraphStep-kept g h (task_reweighted id weight e) c = reweight-IsConsistent g h id weight c e
GraphStep-kept g h (tasks_reordered id ids e) c = reorder_tasks-IsConsistent g h id ids c e
GraphStep-kept g h (dependency_added from to e) c = add_dependency-IsConsistent g h from to c e
GraphStep-kept g h (dependency_removed from to e) c = remove_dependency-IsConsistent g h from to c e
GraphStep-kept g h (feature_moved id patch e) c = transitions-kept g h id patch c e
GraphStep-kept g h (task_moved id patch e) c =
    IsConsistent-of h (transition_task-kept g h id patch (IsWellFormed-of g c) (DepsKnown-of g c) e)
GraphStep-kept g h (feature_edited id patch e) c = edit_feature-IsConsistent g h id patch c e
GraphStep-kept g h (feature_reassigned id m e) c = change_milestone-IsConsistent g h id m c e
GraphStep-kept g h (feature_cancelled id cascade e) c =
    cancel_feature-IsConsistent g h id cascade c e
GraphStep-kept g h (feature_removed id e) c = (remove_feature-IsConsistent g h id c e).0
GraphStep-kept g h (usage_replaced patch e) c = replace_usage_rollups-IsConsistent g h patch c e
GraphStep-kept g h (train_updated id fields e) c =
    update_merge_train_state-IsConsistent g h id fields c e
GraphStep-kept g h (milestone_queued id e) c = queue_milestone-IsConsistent g h id c e
GraphStep-kept g h (milestone_dequeued id e) c = dequeue_milestone-IsConsistent g h id c e
GraphStep-kept g h (queue_cleared e) c = subst IsConsistent (sym e) (clear-IsConsistent g c)
GraphStep-kept g h (proposal_applied proposal result e) c =
    apply_graph_proposal-IsConsistent g h proposal result c e

-- In every graph that the operations of the graph and proposals make of the empty one, in any order,
-- both indexes hold exactly the listed dependencies, neither has a cycle, and every listed dependency
-- is there.
pub GraphReach-IsWellFormed : (g : Graph) → GraphReach g → IsWellFormed g × DepsKnown g
GraphReach-IsWellFormed g reach = (IsWellFormed-of g (kept reach), DepsKnown-of g (kept reach))
  where
    kept : {f : Graph} → GraphReach f → IsConsistent f
    kept at_start = IsConsistent-of empty_graph empty-kept
    kept (then_step {g = f} {h} r step) = GraphStep-kept f h step (kept r)
