-- ===== src/Graph/Mutations/Laws.antt =====
-- What the removal of a task keeps (src/core/graph/task-mutations.ts).
use mathlib.Core.List.Memᴰ
use vcode.Base.{
  String, ◌≡◌, refl, sym, subst, ◌↔◌, ◌⊎◌, arith, List, [], ◌∷◌, none, some, Memᴰ, Memᴰ-cons,
  string_eq, beq_self, includes, without, if◌then◌else◌,
}
use vcode.Base.Dict.{get, get-delete, delete}
use vcode.Base.Results.{ok}
use vcode.Types.Workflow.{TaskStatus, task_status_eq}
use vcode.Types.Domain.{Task}
use vcode.Graph.Search.{Successors, nexts}
use vcode.Graph.Store.{Graph, unlink, mem-nexts-unlink}
use vcode.Graph.Invariant.{IsWellFormed, DepsKnown}
use vcode.Graph.Mutations.{map_values, strip_dep, unlink_all, remove_task}
use vcode.Graph.Side.{
  IsConsistent, IsConsistent-of, IsWellFormed-of, DepsKnown-of, removed-IsSide, mem-nexts-delete,
}

pub mem-nexts-unlink_all :
    (id u w : String) (deps : List String) (s : Successors)
    → Memᴰ w (nexts u (unlink_all id deps s)) ↔ (Memᴰ w (nexts u s) × ¬ (Memᴰ u deps × (w ≡ id)))
unfolding unlink_all
mem-nexts-unlink_all id u w [] s = ground (arith, λ (m : Memᴰ u []). Memᴰ.not-nil m)
mem-nexts-unlink_all id u w (dep ∷ deps) s = ground (
  arith,
  mem-nexts-unlink_all id u w deps (unlink dep id s),
  mem-nexts-unlink dep id u w s,
  Memᴰ-cons u dep deps,
)

-- The body of the loop takes the id out of the dependencies.
pub strips :
    (id : String) (t : Task)
    → (strip_dep id t).depends_on
      ≡ (if includes id t.depends_on then without id t.depends_on else t.depends_on)
strips id t = ground arith

pub remove_task-eq-ok :
    (g h : Graph) (id : String)
    → remove_task g id ≡ ok h
    → (t : Task) × (get id g.tasks ≡ some t)
      × ((t.status ≡ TaskStatus.pending) ⊎ (t.status ≡ TaskStatus.cancelled))
      × (h ≡ record g {
        tasks = delete id (map_values (strip_dep id) g.tasks);
        task_successors = unlink_all id t.depends_on (delete id g.task_successors);
      })
unfolding remove_task
remove_task-eq-ok g h id e = ground arith

-- A task that `removeTask` removes was pending or cancelled, and is gone afterwards; both indexes stay
-- equal to the listed dependencies and free of cycles, and every listed dependency is there.
pub remove_task-IsWellFormed :
    (g h : Graph) (id : String)
    → IsWellFormed g
    → DepsKnown g
    → remove_task g id ≡ ok h
    → ((t : Task) × (get id g.tasks ≡ some t)
        × ((t.status ≡ TaskStatus.pending) ⊎ (t.status ≡ TaskStatus.cancelled)))
      × (get id h.tasks ≡ none)
      × IsWellFormed h
      × DepsKnown h
remove_task-IsWellFormed g h id wf known e =
    let (t, at, status, same) = remove_task-eq-ok g h id e in
    let side = IsConsistent-of g (wf, known) in
    let s' = unlink_all id t.depends_on (delete id g.task_successors) in
    let kept : IsConsistent
        (record g { tasks = delete id (map_values (strip_dep id) g.tasks); task_successors = s' }) =
      record {
        features = side.features;
        tasks =
            removed-IsSide (λ t. t.depends_on) id (strip_dep id) (strips id) g.tasks
              g.task_successors s' t at
              (λ u w. ground (
                arith,
                mem-nexts-unlink_all id u w t.depends_on (delete id g.task_successors),
                mem-nexts-delete id u w g.task_successors,
              ))
              side.tasks;
      } in
    (
      (t, at, status),
      rw same (rw (get-delete, beq_self id) refl),
      subst IsWellFormed (sym same) (IsWellFormed-of _ kept),
      subst DepsKnown (sym same) (DepsKnown-of _ kept),
    )
