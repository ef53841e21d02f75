-- ===== src/Graph/Dependencies/Laws.antt =====
-- The dependency operations keep the graph well formed, and refuse exactly the cycles.
use vcode.Base.{
  String, ◌≡◌, refl, sym, ◌∙◌, subst, inl, inr, arith, [], ◌∷◌, ◌++◌, some, without, string_eq,
  false, Bool-cases, includes,
}
use vcode.Base.Dict.{get, set}
use vcode.Base.Results.{ok}
use vcode.Types.Domain.{Feature, Task}
use vcode.Graph.Search.{has_path_via_successors}
use vcode.Graph.Search.Correct.{has_path_iff}
use vcode.Graph.Store.{Graph, link, unlink}
use vcode.Graph.Index.{link-IsAcyclic, unlink-IsAcyclic, link-IsIndexOf, unlink-IsIndexOf}
use vcode.Graph.Invariant.{
  IsWellFormed, feature_deps, task_deps, mem-deps_in-add, mem-deps_in-remove,
}
use vcode.Graph.Dependencies.{
  add_feature_dependency, remove_feature_dependency, add_task_dependency, remove_task_dependency,
  add_dependency, remove_dependency, is_feature_dependency,
}

abbrev linked_features : Graph → String → String → Feature → Graph
linked_features g from to f = record g {
  features = set from (record f { depends_on = f.depends_on ++ to ∷ [] }) g.features;
  feature_successors = link to from g.feature_successors;
}

add_feature-eq-ok :
    (g h : Graph) (from to : String)
    → add_feature_dependency g from to ≡ ok h
    → (f : Feature) × (get from g.features ≡ some f)
      × (has_path_via_successors from to g.feature_successors ≡ false)
      × (includes to f.depends_on ≡ false)
      × (linked_features g from to f ≡ h)
unfolding add_feature_dependency
add_feature-eq-ok g h from to e = ground arith

add_feature-IsWellFormed :
    (g h : Graph) (from to : String)
    → IsWellFormed g
    → add_feature_dependency g from to ≡ ok h
    → IsWellFormed h
add_feature-IsWellFormed g h from to wf e =
    let (f, at, free, _, same) = add_feature-eq-ok g h from to e in
    subst IsWellFormed same (record {
      features_indexed =
          link-IsIndexOf g.feature_successors (feature_deps g.features) _ from to
            (mem-deps_in-add _ from to f _ g.features at refl) wf.features_indexed;
      features_acyclic =
          link-IsAcyclic to from g.feature_successors wf.features_acyclic
            (λ p. cc (sym ((has_path_iff from to _).1 p) ∙ free));
      tasks_indexed = wf.tasks_indexed;
      tasks_acyclic = wf.tasks_acyclic;
    })

abbrev unlinked_features : Graph → String → String → Feature → Graph
unlinked_features g from to f = record g {
  features = set from (record f { depends_on = without to f.depends_on }) g.features;
  feature_successors = unlink to from g.feature_successors;
}

remove_feature-eq-ok :
    (g h : Graph) (from to : String)
    → remove_feature_dependency g from to ≡ ok h
    → (f : Feature) × (get from g.features ≡ some f) × (unlinked_features g from to f ≡ h)
unfolding remove_feature_dependency
remove_feature-eq-ok g h from to e = ground arith

remove_feature-IsWellFormed :
    (g h : Graph) (from to : String)
    → IsWellFormed g
    → remove_feature_dependency g from to ≡ ok h
    → IsWellFormed h
remove_feature-IsWellFormed g h from to wf e =
    let (f, at, same) = remove_feature-eq-ok g h from to e in
    subst IsWellFormed same (record {
      features_indexed =
          unlink-IsIndexOf g.feature_successors (feature_deps g.features) _ from to
            (mem-deps_in-remove _ from to f _ g.features at refl) wf.features_indexed;
      features_acyclic = unlink-IsAcyclic to from g.feature_successors wf.features_acyclic;
      tasks_indexed = wf.tasks_indexed;
      tasks_acyclic = wf.tasks_acyclic;
    })

abbrev linked_tasks : Graph → String → String → Task → Graph
linked_tasks g from to t = record g {
  tasks = set from (record t { depends_on = t.depends_on ++ to ∷ [] }) g.tasks;
  task_successors = link to from g.task_successors;
}

add_task-eq-ok :
    (g h : Graph) (from to : String)
    → add_task_dependency g from to ≡ ok h
    → (t : Task) × (get from g.tasks ≡ some t)
      × (has_path_via_successors from to g.task_successors ≡ false)
      × (includes to t.depends_on ≡ false)
      × (linked_tasks g from to t ≡ h)
unfolding add_task_dependency
add_task-eq-ok g h from to e = ground arith

add_task-IsWellFormed :
    (g h : Graph) (from to : String)
    → IsWellFormed g
    → add_task_dependency g from to ≡ ok h
    → IsWellFormed h
add_task-IsWellFormed g h from to wf e =
    let (t, at, free, _, same) = add_task-eq-ok g h from to e in
    subst IsWellFormed same (record {
      features_indexed = wf.features_indexed;
      features_acyclic = wf.features_acyclic;
      tasks_indexed =
          link-IsIndexOf g.task_successors (task_deps g.tasks) _ from to
            (mem-deps_in-add _ from to t _ g.tasks at refl) wf.tasks_indexed;
      tasks_acyclic =
          link-IsAcyclic to from g.task_successors wf.tasks_acyclic
            (λ p. cc (sym ((has_path_iff from to _).1 p) ∙ free));
    })

abbrev unlinked_tasks : Graph → String → String → Task → Graph
unlinked_tasks g from to t = record g {
  tasks = set from (record t { depends_on = without to t.depends_on }) g.tasks;
  task_successors = unlink to from g.task_successors;
}

remove_task-eq-ok :
    (g h : Graph) (from to : String)
    → remove_task_dependency g from to ≡ ok h
    → (t : Task) × (get from g.tasks ≡ some t) × (unlinked_tasks g from to t ≡ h)
unfolding remove_task_dependency
remove_task-eq-ok g h from to e = ground arith

remove_task-IsWellFormed :
    (g h : Graph) (from to : String)
    → IsWellFormed g
    → remove_task_dependency g from to ≡ ok h
    → IsWellFormed h
remove_task-IsWellFormed g h from to wf e =
    let (t, at, same) = remove_task-eq-ok g h from to e in
    subst IsWellFormed same (record {
      features_indexed = wf.features_indexed;
      features_acyclic = wf.features_acyclic;
      tasks_indexed =
          unlink-IsIndexOf g.task_successors (task_deps g.tasks) _ from to
            (mem-deps_in-remove _ from to t _ g.tasks at refl) wf.tasks_indexed;
      tasks_acyclic = unlink-IsAcyclic to from g.task_successors wf.tasks_acyclic;
    })

-- A dependency that `addDependency` adds, between features or between tasks, keeps each successor
-- index equal to the listed dependencies and free of cycles.
pub add_dependency-IsWellFormed :
    (g h : Graph) (from to : String)
    → IsWellFormed g
    → add_dependency g from to ≡ ok h
    → IsWellFormed h
unfolding add_dependency
add_dependency-IsWellFormed g h from to wf e = elim (Bool-cases (is_feature_dependency from)) [
  | inl b ↦ add_feature-IsWellFormed g h from to wf (rw b at e)
  | inr b ↦ add_task-IsWellFormed g h from to wf (rw b at e)
]

-- A dependency that `removeDependency` removes, between features or between tasks, keeps each
-- successor index equal to the listed dependencies and free of cycles.
pub remove_dependency-IsWellFormed :
    (g h : Graph) (from to : String)
    → IsWellFormed g
    → remove_dependency g from to ≡ ok h
    → IsWellFormed h
unfolding remove_dependency
remove_dependency-IsWellFormed g h from to wf e = elim (Bool-cases (is_feature_dependency from)) [
  | inl b ↦ remove_feature-IsWellFormed g h from to wf (rw b at e)
  | inr b ↦ remove_task-IsWellFormed g h from to wf (rw b at e)
]
