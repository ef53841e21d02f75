-- ===== src/Graph/Mutations/Kept.antt =====
-- The operations of src/core/graph that write one node, or milestones only, keep all dependencies.
use vcode.Base.{
  ℕ, suc, String, ◌≡◌, refl, sym, subst, inl, inr, arith, List, [], ◌∷◌, some, Option-cases, ◌==◌,
  ◌!=◌, ◌&&◌, string_eq, length, keep,
}
use vcode.Base.Dict.{Dict, get, set, values}
use vcode.Base.Results.{ok}
use vcode.Types.Workflow.{FeatureId, TaskId, MilestoneId, TaskWeight}
use vcode.Types.Domain.{Feature, Task}
use vcode.Graph.Store.{Graph}
use vcode.Graph.Side.{
  IsSide, IsConsistent, IsConsistent-of, IsWellFormed-of, DepsKnown-of, set-IsSide,
}
use vcode.Graph.Creation.{
  CreateMilestoneOptions, CreateFeatureOptions, CreateTaskOptions, create_milestone, create_feature,
  create_task,
}
use vcode.Graph.Creation.Laws.{create_feature-IsWellFormed, create_task-IsWellFormed}
use vcode.Graph.Dependencies.{add_dependency, remove_dependency}
use vcode.Graph.Dependencies.Laws.{add_dependency-IsWellFormed, remove_dependency-IsWellFormed}
use vcode.Graph.Known.{add_dependency-DepsKnown, remove_dependency-DepsKnown}
use vcode.Graph.Mutations.{
  TaskEditPatch, edited, edit_task, renumber, reorder_tasks, reweight, queue_milestone,
  dequeue_milestone, change_milestone, remove_task,
}
use vcode.Graph.Mutations.Laws.{remove_task-IsWellFormed}
use vcode.Graph.Features.{FeatureEditPatch, edited_feature, edit_feature}
use vcode.Graph.Features.Kept.{edit_feature-eq-ok}

abbrev deps : Task → List String
deps t = t.depends_on

-- A graph that differs in other parts is consistent with this one.
pub frame :
    (g h : Graph)
    → h.features ≡ g.features
    → h.tasks ≡ g.tasks
    → h.feature_successors ≡ g.feature_successors
    → h.task_successors ≡ g.task_successors
    → IsConsistent g
    → IsConsistent h
frame g h fs ts fi ti c = record { features = rw (fs, fi) c.features; tasks = rw (ts, ti) c.tasks }

pub set_task-IsConsistent :
    (g h : Graph) (id : TaskId) (t t' : Task)
    → get id g.tasks ≡ some t
    → t'.depends_on ≡ t.depends_on
    → h ≡ record g { tasks = set id t' g.tasks }
    → IsConsistent g
    → IsConsistent h
set_task-IsConsistent g h id t t' at same e c = subst IsConsistent (sym e) (record {
  features = c.features;
  tasks = set-IsSide deps g.tasks g.task_successors id t t' at same c.tasks;
})

pub set_feature-IsConsistent :
    (g h : Graph) (id : FeatureId) (f f' : Feature)
    → get id g.features ≡ some f
    → f'.depends_on ≡ f.depends_on
    → h ≡ record g { features = set id f' g.features }
    → IsConsistent g
    → IsConsistent h
set_feature-IsConsistent g h id f f' at same e c = subst IsConsistent (sym e) (record {
  features =
      set-IsSide (λ x. x.depends_on) g.features g.feature_successors id f f' at same c.features;
  tasks = c.tasks;
})

pub create_milestone-IsConsistent :
    (g h : Graph) (opts : CreateMilestoneOptions)
    → IsConsistent g
    → create_milestone g opts ≡ ok h
    → IsConsistent h
unfolding create_milestone
create_milestone-IsConsistent g h opts c e =
    frame g h (ground arith) (ground arith) (ground arith) (ground arith) c

pub edit_task-IsConsistent :
    (g h : Graph) (id : TaskId) (patch : TaskEditPatch)
    → IsConsistent g
    → edit_task g id patch ≡ ok h
    → IsConsistent h
unfolding edit_task
edit_task-IsConsistent g h id patch c e =
    let (t, at, same) : (t : Task) × (get id g.tasks ≡ some t)
        × (h ≡ record g { tasks = set id (edited t patch) g.tasks }) =
      ground arith in
    set_task-IsConsistent g h id t (edited t patch) at refl same c

pub reweight-IsConsistent :
    (g h : Graph) (id : TaskId) (weight : TaskWeight)
    → IsConsistent g
    → reweight g id weight ≡ ok h
    → IsConsistent h
unfolding reweight
reweight-IsConsistent g h id weight c e =
    let (t, at, same) : (t : Task) × (get id g.tasks ≡ some t)
        × (h ≡ record g { tasks = set id (record t { weight = some weight }) g.tasks }) =
      ground arith in
    set_task-IsConsistent g h id t (record t { weight = some weight }) at refl same c

pub change_milestone-eq-ok :
    (g h : Graph) (id : FeatureId) (m : MilestoneId)
    → change_milestone g id m ≡ ok h
    → (f : Feature) × (n : ℕ) × (get id g.features ≡ some f)
      × (h ≡ record g {
        features = set id (record f { milestone_id = m; order_in_milestone = n }) g.features;
      })
unfolding change_milestone
change_milestone-eq-ok g h id m e = elim (Option-cases (get id g.features)) [
  | inl missing ↦ ground arith
  | inr (f, at) ↦
      let n =
        length (keep (λ (x : Feature). x.milestone_id == m && x.id != id) (values g.features)) in
      (f, n, at, ground arith)
]

pub change_milestone-IsConsistent :
    (g h : Graph) (id : FeatureId) (m : MilestoneId)
    → IsConsistent g
    → change_milestone g id m ≡ ok h
    → IsConsistent h
change_milestone-IsConsistent g h id m c e =
    let (f, n, at, same) = change_milestone-eq-ok g h id m e in
    set_feature-IsConsistent g h id f (record f { milestone_id = m; order_in_milestone = n }) at
      refl same c

pub edit_feature-IsConsistent :
    (g h : Graph) (id : FeatureId) (patch : FeatureEditPatch)
    → IsConsistent g
    → edit_feature g id patch ≡ ok h
    → IsConsistent h
edit_feature-IsConsistent g h id patch c e =
    let (f, at, same) = edit_feature-eq-ok g h id patch e in
    set_feature-IsConsistent g h id f (edited_feature f patch) at refl same c

renumber-IsSide :
    (g : Graph) (index : ℕ) (ids : List TaskId) (tasks : Dict Task)
    → IsSide deps tasks g.task_successors
    → IsSide deps (renumber index ids tasks) g.task_successors
unfolding renumber
renumber-IsSide g index [] tasks side = side
renumber-IsSide g index (id ∷ ids) tasks side = elim (Option-cases (get id tasks)) [
  | inl missing ↦ rw missing (renumber-IsSide g (suc index) ids tasks side)
  | inr (t, at) ↦ rw at (
      renumber-IsSide g (suc index) ids _ (
        set-IsSide deps tasks g.task_successors id t (record t { order_in_feature = index }) at refl
          side))
]

pub reorder_tasks-IsConsistent :
    (g h : Graph) (id : FeatureId) (ids : List TaskId)
    → IsConsistent g
    → reorder_tasks g id ids ≡ ok h
    → IsConsistent h
unfolding reorder_tasks
reorder_tasks-IsConsistent g h id ids c e =
    let same : h ≡ record g { tasks = renumber 0 ids g.tasks } = ground arith in
    subst IsConsistent (sym same)
      (record { features = c.features; tasks = renumber-IsSide g 0 ids g.tasks c.tasks })

pub queue_milestone-IsConsistent :
    (g h : Graph) (id : MilestoneId) → IsConsistent g → queue_milestone g id ≡ ok h → IsConsistent h
unfolding queue_milestone
queue_milestone-IsConsistent g h id c e =
    frame g h (ground arith) (ground arith) (ground arith) (ground arith) c

pub dequeue_milestone-IsConsistent :
    (g h : Graph) (id : MilestoneId)
    → IsConsistent g
    → dequeue_milestone g id ≡ ok h
    → IsConsistent h
unfolding dequeue_milestone
dequeue_milestone-IsConsistent g h id c e =
    frame g h (ground arith) (ground arith) (ground arith) (ground arith) c

pub create_feature-IsConsistent :
    (g h : Graph) (opts : CreateFeatureOptions)
    → IsConsistent g
    → create_feature g opts ≡ ok h
    → IsConsistent h
create_feature-IsConsistent g h opts c e =
    IsConsistent-of h
      (create_feature-IsWellFormed g h opts (IsWellFormed-of g c) (DepsKnown-of g c) e)

pub create_task-IsConsistent :
    (g h : Graph) (opts : CreateTaskOptions)
    → IsConsistent g
    → create_task g opts ≡ ok h
    → IsConsistent h
create_task-IsConsistent g h opts c e =
    IsConsistent-of h (create_task-IsWellFormed g h opts (IsWellFormed-of g c) (DepsKnown-of g c) e)

pub remove_task-IsConsistent :
    (g h : Graph) (id : TaskId) → IsConsistent g → remove_task g id ≡ ok h → IsConsistent h
remove_task-IsConsistent g h id c e =
    let (_, _, wf, known) =
      remove_task-IsWellFormed g h id (IsWellFormed-of g c) (DepsKnown-of g c) e in
    IsConsistent-of h (wf, known)

pub add_dependency-IsConsistent :
    (g h : Graph) (from to : String)
    → IsConsistent g
    → add_dependency g from to ≡ ok h
    → IsConsistent h
add_dependency-IsConsistent g h from to c e = IsConsistent-of h (
  add_dependency-IsWellFormed g h from to (IsWellFormed-of g c) e,
  add_dependency-DepsKnown g h from to (DepsKnown-of g c) e,
)

pub remove_dependency-IsConsistent :
    (g h : Graph) (from to : String)
    → IsConsistent g
    → remove_dependency g from to ≡ ok h
    → IsConsistent h
remove_dependency-IsConsistent g h from to c e = IsConsistent-of h (
  remove_dependency-IsWellFormed g h from to (IsWellFormed-of g c) e,
  remove_dependency-DepsKnown g h from to (DepsKnown-of g c) e,
)
