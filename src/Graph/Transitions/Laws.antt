-- ===== src/Graph/Transitions/Laws.antt =====
-- What the state changes of src/core/graph/transitions.ts do to the graph.
use vcode.Base.{
  String, ◌≡◌, ◌≢◌, refl, sym, subst, ◌⊎◌, arith, none, some, ◌==◌, string_eq, if◌then◌else◌,
  or_else, ◌!=◌, ◌&&◌,
}
use vcode.Base.Dict.{Dict, get, set, Every, Every-set}
use vcode.Base.Results.{ok}
use vcode.Types.Workflow.{suspended, task_collab_eq}
use vcode.Types.Domain.{Feature, Task}
use vcode.Fsm.Table.{valid}
use vcode.Fsm.Feature.{validate_feature_transition}
use vcode.Fsm.Task.{validate_task_transition}
use vcode.Fsm.Laws
use vcode.Graph.Store.{Graph}
use vcode.Graph.Invariant.{IsWellFormed, deps_in-keep}
use vcode.Graph.Transitions.{
  FeatureTransitionPatch, TaskTransitionPatch, triple_of, proposed_triple, with_triple,
  transition_feature, pair_of, proposed_pair, patched, without_suspension, transition_task,
}

pub feature-eq-ok :
    (g h : Graph) (id : String) (patch : FeatureTransitionPatch)
    → transition_feature g id patch ≡ ok h
    → (f : Feature) × (get id g.features ≡ some f)
      × (validate_feature_transition (triple_of f) (proposed_triple f patch) ≡ valid)
      × (h ≡ record g { features = set id (with_triple f (proposed_triple f patch)) g.features })
unfolding transition_feature
feature-eq-ok g h id patch e = ground arith

-- Every feature is in a state that the guards allow a new feature to reach.
abbrev pub AllReachable : Dict Feature → Type 0
AllReachable = Every (λ _ f. Laws.Reach Laws.initial (triple_of f))

-- `transitionFeature` keeps every feature of the graph in a state that is reachable from that of a
-- new feature by steps which the guards allow.
pub transition_feature-AllReachable :
    (g h : Graph) (id : String) (patch : FeatureTransitionPatch)
    → AllReachable g.features
    → transition_feature g id patch ≡ ok h
    → AllReachable h.features
transition_feature-AllReachable g h id patch all e =
    let (f, at, allowed, same) = feature-eq-ok g h id patch e in
    subst (λ k. AllReachable k.features) (sym same)
      (Every-set _ id _ g.features all (Laws.next (all id f at) allowed))

-- `transitionFeature` keeps each successor index equal to the listed dependencies and free of cycles.
pub transition_feature-IsWellFormed :
    (g h : Graph) (id : String) (patch : FeatureTransitionPatch)
    → IsWellFormed g
    → transition_feature g id patch ≡ ok h
    → IsWellFormed h
transition_feature-IsWellFormed g h id patch wf e =
    let (f, at, _, same) = feature-eq-ok g h id patch e in
    subst IsWellFormed (sym same) (record {
      features_indexed = λ u v.
          rw
            (deps_in-keep (λ x. x.depends_on) id v f (with_triple f (proposed_triple f patch))
              g.features at refl)
            (wf.features_indexed u v);
      features_acyclic = wf.features_acyclic;
      tasks_indexed = wf.tasks_indexed;
      tasks_acyclic = wf.tasks_acyclic;
    })

-- The task that `transitionTask` writes.
abbrev pub task_after : Task → TaskTransitionPatch → Task
task_after t patch =
    if t.collab_control == suspended && or_else patch.collab_control t.collab_control != suspended
    then without_suspension (patched t patch)
    else patched t patch

pub task-eq-ok :
    (g h : Graph) (id : String) (patch : TaskTransitionPatch)
    → transition_task g id patch ≡ ok h
    → (t : Task) × (get id g.tasks ≡ some t)
      × (validate_task_transition (pair_of t) (proposed_pair t patch) ≡ valid)
      × (h ≡ record g { tasks = set id (task_after t patch) g.tasks })
unfolding transition_task
task-eq-ok g h id patch e = ground arith

-- A task has the fields of a suspension only while it is suspended.
abbrev pub IsTidy : Task → Type 0
IsTidy t =
    t.collab_control ≢ suspended
    → (t.suspended_at ≡ none)
      × (t.suspend_reason ≡ none)
      × (t.suspended_files ≡ none)
      × (t.blocked_by_feature_id ≡ none)

-- A patch that carries fields of a suspension suspends the task.
abbrev pub SuspendsIfStamped : TaskTransitionPatch → Type 0
SuspendsIfStamped patch =
    (patch.collab_control ≡ some suspended)
    ⊎ ((patch.suspended_at ≡ none)
        × (patch.suspend_reason ≡ none)
        × (patch.suspended_files ≡ none)
        × (patch.blocked_by_feature_id ≡ none))

task_after-IsTidy :
    (t : Task) (patch : TaskTransitionPatch)
    → IsTidy t
    → SuspendsIfStamped patch
    → IsTidy (task_after t patch)
unfolding patched without_suspension
task_after-IsTidy t patch tidy stamped = ground arith

-- `transitionTask` clears the fields of a suspension when the task leaves it: where no task outside a
-- suspension carries such a field, and the patch carries one only to suspend, no task outside a
-- suspension carries one afterwards.
pub transition_task-IsTidy :
    (g h : Graph) (id : String) (patch : TaskTransitionPatch)
    → Every (λ _ t. IsTidy t) g.tasks
    → SuspendsIfStamped patch
    → transition_task g id patch ≡ ok h
    → Every (λ _ t. IsTidy t) h.tasks
transition_task-IsTidy g h id patch all stamped e =
    let (t, at, _, same) = task-eq-ok g h id patch e in
    subst (λ k. Every (λ _ x. IsTidy x) k.tasks) (sym same)
      (Every-set _ id _ g.tasks all (task_after-IsTidy t patch (all id t at) stamped))
