-- ===== src/Graph/Features/Removal.antt =====
-- What `removeFeature` keeps (src/core/graph/feature-mutations.ts).
use mathlib.Core.List.Memᴰ
use vcode.Base.{
  String, true, ◌≡◌, ◌≢◌, refl, sym, ◌∙◌, subst, ◌↔◌, ◌⊎◌, inl, inr, arith, List, [], ◌∷◌, Option,
  none, some, Memᴰ, Memᴰ-cons, string_eq, Bool-cases, Option-cases, beq_self, includes, without,
  if◌then◌else◌, or_else,
}
use vcode.Base.Dict.{get, get-delete, delete, values}
use vcode.Base.Results.{ok}
use vcode.Types.Domain.{Feature, Task}
use vcode.Graph.Search.{Successors, nexts}
use vcode.Graph.Store.{Graph, unlink, mem-nexts-unlink}
use vcode.Graph.Mutations.{map_values, strip_dep, task_ids_of}
use vcode.Graph.Mutations.Laws.{strips}
use vcode.Graph.Side.{IsConsistent, removed-IsSide, mem-nexts-delete}
use vcode.Graph.Features.{
  unlink_clean, unlink_clean_all, is_empty_set, remove_owned_task, remove_owned_tasks, remove_node,
  remove_feature, strip_feature_dep,
}

-- An empty set that is removed was no edge.
mem-nexts-unlink_clean :
    (dep id u w : String) (s : Successors)
    → Memᴰ w (nexts u (unlink_clean dep id s)) ↔ (Memᴰ w (nexts u s) × ¬ ((u ≡ dep) × (w ≡ id)))
unfolding unlink_clean nexts
mem-nexts-unlink_clean dep id u w s = elim (Bool-cases (is_empty_set (get dep (unlink dep id s)))) [
  | inr keeps ↦ rw keeps (mem-nexts-unlink dep id u w s)
  | inl empty ↦ rw empty (
      ground (
        arith,
        mem-nexts-delete dep u w (unlink dep id s),
        mem-nexts-unlink dep id u w s,
        vanished (unlink dep id s) empty,
      ))
]
  where
    gone : (o : Option (List String)) → is_empty_set o ≡ true → ¬ Memᴰ w (or_else o [])
    gone none e k = Memᴰ.not-nil k
    gone (some []) e k = Memᴰ.not-nil k
    gone (some (x ∷ xs)) e k = cc

    vanished : (t : Successors) → is_empty_set (get dep t) ≡ true → u ≡ dep → ¬ Memᴰ w (nexts u t)
    vanished t empty at k = gone (get dep t) empty (subst (λ v. Memᴰ w (or_else (get v t) [])) at k)

mem-nexts-unlink_clean_all :
    (id u w : String) (deps : List String) (s : Successors)
    → Memᴰ w (nexts u (unlink_clean_all id deps s))
      ↔ (Memᴰ w (nexts u s) × ¬ (Memᴰ u deps × (w ≡ id)))
unfolding unlink_clean_all
mem-nexts-unlink_clean_all id u w [] s = ground (arith, λ (m : Memᴰ u []). Memᴰ.not-nil m)
mem-nexts-unlink_clean_all id u w (dep ∷ deps) s = ground (
  arith,
  mem-nexts-unlink_clean_all id u w deps (unlink_clean dep id s),
  mem-nexts-unlink_clean dep id u w s,
  Memᴰ-cons u dep deps,
)

mem-nexts-removed :
    (id u w : String) (deps : List String) (s : Successors)
    → Memᴰ w (nexts u (delete id (unlink_clean_all id deps s)))
      ↔ (Memᴰ w (nexts u s) × (u ≢ id) × ¬ (Memᴰ u deps × (w ≡ id)))
mem-nexts-removed id u w deps s = ground (
  arith,
  mem-nexts-delete id u w (unlink_clean_all id deps s),
  mem-nexts-unlink_clean_all id u w deps s,
)

abbrev without_owned : Graph → String → Task → Graph
without_owned g id t = record g {
  tasks = delete id (map_values (strip_dep id) g.tasks);
  task_successors = delete id (unlink_clean_all id t.depends_on g.task_successors);
}

owned-cases :
    (g : Graph) (id : String)
    → (remove_owned_task g id ≡ g)
      ⊎ ((t : Task) × (get id g.tasks ≡ some t) × (remove_owned_task g id ≡ without_owned g id t))
unfolding remove_owned_task
owned-cases g id = elim (Option-cases (get id g.tasks)) [
  | inl missing ↦ inl (ground arith)
  | inr (t, at) ↦ inr (t, at, ground arith)
]

owned-IsConsistent :
    (g : Graph) (id : String) → IsConsistent g → IsConsistent (remove_owned_task g id)
owned-IsConsistent g id c = elim (owned-cases g id) [
  | inl same ↦ subst IsConsistent (sym same) c
  | inr (t, at, same) ↦ subst IsConsistent (sym same) (record {
    features = c.features;
    tasks =
        removed-IsSide (λ x. x.depends_on) id (strip_dep id) (strips id) g.tasks g.task_successors _
          t at (λ u w. mem-nexts-removed id u w t.depends_on _) c.tasks;
  })
]

owned_all-IsConsistent :
    (ids : List String) (g : Graph) → IsConsistent g → IsConsistent (remove_owned_tasks ids g)
unfolding remove_owned_tasks
owned_all-IsConsistent [] g c = c
owned_all-IsConsistent (id ∷ ids) g c =
    owned_all-IsConsistent ids (remove_owned_task g id) (owned-IsConsistent g id c)

-- The tasks' loop leaves the features alone.
owned-features : (g : Graph) (id : String) → (remove_owned_task g id).features ≡ g.features
unfolding remove_owned_task
owned-features g id = ground arith

pub owned_all-features :
    (ids : List String) (g : Graph) → (remove_owned_tasks ids g).features ≡ g.features
unfolding remove_owned_tasks
owned_all-features [] g = refl
owned_all-features (id ∷ ids) g =
    owned_all-features ids (remove_owned_task g id) ∙ owned-features g id

feature_strips :
    (id : String) (f : Feature)
    → (strip_feature_dep id f).depends_on
      ≡ (if includes id f.depends_on then without id f.depends_on else f.depends_on)
feature_strips id f = ground arith

node-IsConsistent :
    (g : Graph) (id : String) (f : Feature)
    → get id g.features ≡ some f
    → IsConsistent g
    → IsConsistent (remove_node id f g)
unfolding remove_node
node-IsConsistent g id f at c = record {
  features =
      removed-IsSide (λ x. x.depends_on) id (strip_feature_dep id) (feature_strips id) g.features
        g.feature_successors _ f at (λ u w. mem-nexts-removed id u w f.depends_on _) c.features;
  tasks = c.tasks;
}

pub remove_feature-eq-ok :
    (g h : Graph) (id : String)
    → remove_feature g id ≡ ok h
    → (f : Feature) × (get id g.features ≡ some f)
      × (h ≡ remove_node id f (remove_owned_tasks (task_ids_of id (values g.tasks)) g))
unfolding remove_feature
remove_feature-eq-ok g h id e = ground arith

-- `removeFeature` takes the feature out of the graph, and it and its tasks out of all dependencies: both
-- indexes stay equal to the listed dependencies and free of cycles, every listed dependency is there,
-- and the feature is not.
pub remove_feature-IsConsistent :
    (g h : Graph) (id : String)
    → IsConsistent g
    → remove_feature g id ≡ ok h
    → IsConsistent h × (get id h.features ≡ none)
unfolding remove_node
remove_feature-IsConsistent g h id c e =
    let (f, at, same) = remove_feature-eq-ok g h id e in
    let ids = task_ids_of id (values g.tasks) in
    let at' : get id (remove_owned_tasks ids g).features ≡ some f = rw owned_all-features at in
    (
      subst IsConsistent (sym same)
          (node-IsConsistent (remove_owned_tasks ids g) id f at' (owned_all-IsConsistent ids g c)),
      rw same (rw (get-delete, beq_self id) refl),
    )
