-- ===== src/Graph/Numbering/Added.antt =====
-- What `addTask` of src/core/graph/task-mutations.ts does: the id that it takes is new.
use mathlib.Core.List.Memᴰ
use text.Mathlib.Text.{starts_with}
use text.Mathlib.TextPositions.{starts_with_of_prefix}
use text.Mathlib.TextLemmas.{cons-append, nil-append}
use Prim.Native.Char.{Char}
use vcode.Doubles.{exact_limit, rounded_exact, number_text}
use vcode.Decimal.{◌∷◌ as ◌∷ˢ◌}
use vcode.Base.{
  ℕ, suc, ◌<◌, ◌≤◌, String, ◌≡◌, ◌≢◌, refl, inl, inr, arith, true, false, ◌&&◌, List, [], ◌∷◌, none,
  some, Memᴰ, Bool-cases, ◌==◌, string_eq, sym, ◌∙◌, subst, ap, or_else, includes, includes_iff,
  beq_of_eq,
}
use vcode.Base.Dict.{get, set, keys, values}
use vcode.Base.Results.{ok}
use vcode.Types.Workflow.{FeatureCollabControl, work_complete, work_control_eq, feature_collab_eq}
use vcode.Types.Domain.{Feature, Task}
use vcode.Graph.Search.{Successors, has_path_via_successors}
use vcode.Graph.Search.Correct.{Reaches, here, step, has_path_iff}
use vcode.Graph.Store.{Graph, GraphError}
use vcode.Graph.Invariant.{listed}
use vcode.Graph.Side.{IsConsistent, IsConsistent-of, IsWellFormed-of, DepsKnown-of}
use vcode.Graph.Creation.{
  CreateTaskOptions, create_task, check_task_deps, check_paths, new_task, link_all, next_task_order,
}
use vcode.Graph.Creation.Laws.{create_task-IsWellFormed}
use vcode.Graph.Numbering.{
  AddTaskOptions, task_number, task_id, next_task, numbered_options, add_task, highest,
}
use vcode.Graph.Numbering.Fresh.{highest-fresh, highest-max, highest-below, task_number-id}

-- A task of the feature, under an id of a task.
abbrev pub IsTaskOf : Graph → String → String → Type 0
IsTaskOf g feature_id id =
    (starts_with id "t-" ≡ true)
    × (t : Task) × (get id g.tasks ≡ some t)
    × (t.feature_id ≡ feature_id)

check_task_deps-ok :
    (g : Graph) (id : String) (deps : List String)
    → ((d : String) → Memᴰ d deps → IsTaskOf g id d)
    → check_task_deps g.tasks id deps ≡ ok tt
unfolding check_task_deps
check_task_deps-ok g id [] h = refl
check_task_deps-ok g id (dep ∷ deps) h =
    let (prefix, t, at, own) = h dep (Memᴰ.head refl) in
    rw (prefix, at, beq_of_eq {a = t.feature_id} {b = id} own)
      (check_task_deps-ok g id deps (λ d m. h d (Memᴰ.tail m)))

check_paths-ok :
    (s : Successors) (id : String) (error : String → GraphError) (deps : List String)
    → ((d : String) → Memᴰ d deps → ¬ Reaches s d id)
    → check_paths s id error deps ≡ ok tt
unfolding check_paths
check_paths-ok s id error [] h = refl
check_paths-ok s id error (dep ∷ deps) h = elim (Bool-cases (has_path_via_successors dep id s)) [
  | inl path ↦ absurd (h dep (Memᴰ.head refl) ((has_path_iff dep id s).0 path))
  | inr free ↦ rw free (check_paths-ok s id error deps (λ d m. h d (Memᴰ.tail m)))
]

-- No path leads to a node that is not there but from itself.
unknown-Reaches :
    (g : Graph) (id u : String)
    → IsConsistent g
    → get id g.tasks ≡ none
    → Reaches g.task_successors u id
    → u ≡ id
unknown-Reaches g id u c gone here = refl
unknown-Reaches g id u c gone (step {v} {w} p e) = absurd (
    Memᴰ.not-nil (
      subst (λ o. Memᴰ v (listed (λ (t : Task). t.depends_on) o)) gone
        ((c.tasks.indexed v id).0 e)))

-- Every number that `addTask` compares is below 2^53.
abbrev pub IsExact : Graph → Type 0
IsExact g =
    (g.task_id_counter < exact_limit)
    × ((id : String) (n : ℕ)
        → Memᴰ id (keys g.tasks)
        → task_number id ≡ some (false, n)
        → n < exact_limit)

next-exact :
    (g : Graph)
    → IsExact g
    → ((next_task g).task_id_counter ≡ suc (highest task_number (keys g.tasks) g.task_id_counter))
      × ((next_task g).task_id_counter ≤ exact_limit)
unfolding next_task
next-exact g (counter, ids) =
    let below =
      highest-below task_number (keys g.tasks) g.task_id_counter exact_limit counter ids in
    let same =
      rounded_exact (suc (highest task_number (keys g.tasks) g.task_id_counter)) (omega arith) in
    (same, omega (arith, same))

next-fresh : (g : Graph) → IsExact g → get (task_id (next_task g).task_id_counter) g.tasks ≡ none
next-fresh g exact =
    let (same, low) = next-exact g exact in
    highest-fresh task_number (task_id (next_task g).task_id_counter) (next_task g).task_id_counter
      g.tasks g.task_id_counter (task_number-id (next_task g).task_id_counter low)
      (omega (arith, same))

two_first : (a b : Char) (s : String) → starts_with (a ∷ˢ b ∷ˢ s) (a ∷ˢ b ∷ˢ "") ≡ true
two_first a b s = starts_with_of_prefix (a ∷ˢ b ∷ˢ "") (a ∷ˢ b ∷ˢ s) (
  s,
  cons-append a (b ∷ˢ "") s
      ∙ ap (λ t. a ∷ˢ t) (cons-append b "" s ∙ ap (λ t. b ∷ˢ t) (nil-append s)),
)

prefixed : (n : ℕ) → starts_with (task_id n) "t-" ≡ true
prefixed n = two_first "t" "-" (number_text n)

live-ok :
    (g : Graph) (opts : CreateTaskOptions) (f : Feature)
    → IsConsistent g
    → starts_with opts.id "t-" ≡ true
    → get opts.id g.tasks ≡ none
    → get opts.feature_id g.features ≡ some f
    → (f.collab_control == FeatureCollabControl.cancelled) ≡ false
    → (f.work_control == work_complete && f.collab_control == FeatureCollabControl.merged) ≡ false
    → ((d : String) → Memᴰ d (or_else opts.depends_on []) → IsTaskOf g opts.feature_id d)
    → create_task g opts
      ≡ ok (record g {
        tasks =
            set opts.id
              (new_task opts f (next_task_order opts.feature_id 0 (values g.tasks)))
              g.tasks;
        task_successors = link_all opts.id (or_else opts.depends_on []) g.task_successors;
      })
unfolding create_task
live-ok g opts f c prefix fresh at live unmerged deps =
    rw
      (
        prefix,
        fresh,
        at,
        live,
        unmerged,
        check_task_deps-ok g opts.feature_id _ deps,
        no_self,
        check_paths-ok g.task_successors opts.id _ _ no_path,
      )
      refl
  where
    other : (d : String) → Memᴰ d (or_else opts.depends_on []) → d ≢ opts.id
    other d m same =
        let (_, t, there, _) = deps d m in
        cc (sym (subst (λ x. get x g.tasks ≡ some t) same there) ∙ fresh)

    no_self : includes opts.id (or_else opts.depends_on []) ≡ false
    no_self = elim (Bool-cases (includes opts.id (or_else opts.depends_on []))) [
      | inl self ↦ absurd (other opts.id ((includes_iff opts.id _).0 self) refl)
      | inr apart ↦ apart
    ]

    no_path :
        (d : String) → Memᴰ d (or_else opts.depends_on []) → ¬ Reaches g.task_successors d opts.id
    no_path d m p = other d m (unknown-Reaches g opts.id d c fresh p)

-- In a graph whose indexes are those of the listed dependencies, and where the counter and the numbers
-- that `addTask` reads in the ids are below 2^53, `addTask` for a feature that is neither
-- cancelled nor merged and complete, with tasks of that feature as dependencies, does not fail: the
-- number of the new task is above the counter and its id is not in the graph before; afterwards the
-- counter is that number, the task lists the given dependencies, no other task or feature has changed,
-- and both indexes are again those of the listed dependencies, without a cycle.
pub add_task-adds :
    (g : Graph) (opts : AddTaskOptions) (f : Feature)
    → IsConsistent g
    → IsExact g
    → get opts.feature_id g.features ≡ some f
    → (f.collab_control == FeatureCollabControl.cancelled) ≡ false
    → (f.work_control == work_complete && f.collab_control == FeatureCollabControl.merged) ≡ false
    → ((d : String) → Memᴰ d (or_else opts.deps []) → IsTaskOf g opts.feature_id d)
    → (h : Graph) × (n : ℕ) × (t : Task) × (add_task g opts ≡ ok h)
      × (g.task_id_counter < n)
      × (h.task_id_counter ≡ n)
      × (get (task_id n) g.tasks ≡ none)
      × (h.tasks ≡ set (task_id n) t g.tasks)
      × (t.feature_id ≡ opts.feature_id)
      × (t.depends_on ≡ or_else opts.deps [])
      × (h.features ≡ g.features)
      × IsConsistent h
unfolding add_task next_task
add_task-adds g opts f c exact at live unmerged deps =
    let counted = next_task g in
    let n = counted.task_id_counter in
    let (same, low) = next-exact g exact in
    let above : g.task_id_counter < n =
      omega (arith, same, highest-max task_number (keys g.tasks) g.task_id_counter) in
    let made = numbered_options (task_id n) opts in
    let c' : IsConsistent counted = record { features = c.features; tasks = c.tasks } in
    let done = live-ok counted made f c' (prefixed n) (next-fresh g exact) at live unmerged deps in
    let kept =
      create_task-IsWellFormed counted _ made (IsWellFormed-of counted c') (DepsKnown-of counted c')
        done in
    (
      _,
      n,
      new_task made f (next_task_order opts.feature_id 0 (values g.tasks)),
      done,
      above,
      refl,
      next-fresh g exact,
      refl,
      refl,
      refl,
      refl,
      IsConsistent-of _ kept,
    )
