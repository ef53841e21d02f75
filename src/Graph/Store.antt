-- ===== src/Graph/Store.antt =====
-- src/core/graph/internal.ts and index.ts: the maps of the graph with its two successor indexes, the
-- errors that its operations throw, and the updates of an index.
use mathlib.Core.List.Memᴰ
use vcode.Base.{
  Option-cases, ℕ, String, [], Option, none, some, add_to_set, without, string_eq, ◌≡◌, ◌↔◌, ◌⊎◌,
  inl, inr, arith, Memᴰ, or_else, eq_iff, mem-add_to_set, mem-without,
}
use vcode.Base.Dict.{Dict, get, set, get-set}
use vcode.Base.Results.{Result}
use vcode.Types.Workflow.{
  MilestoneId, FeatureId, TaskId, TaskStatus, FeatureWorkControl, FeatureCollabControl,
}
use vcode.Types.Domain.{Milestone, Feature, Task}
use vcode.Fsm.Table.{Reason}
use vcode.Graph.Search.{Successors, nexts}

pub record Graph : Type 0 where
  pub milestones : Dict Milestone
  pub features : Dict Feature
  pub tasks : Dict Task
  pub feature_successors : Successors
  pub task_successors : Successors
  pub task_id_counter : ℕ
  pub graph_version : ℕ

-- `GraphValidationError`: its messages, with what they quote.
pub data GraphError : Type 0 where
  milestone_prefix feature_prefix task_prefix : String → GraphError
  milestone_exists milestone_missing : MilestoneId → GraphError
  feature_exists feature_missing : FeatureId → GraphError
  task_exists task_missing : TaskId → GraphError
  feature_dep_prefix feature_dep_missing : FeatureId → GraphError
  task_dep_prefix task_dep_missing : TaskId → GraphError
  task_dep_foreign : TaskId → FeatureId → FeatureId → GraphError
  feature_self_dep : FeatureId → GraphError
  task_self_dep : TaskId → GraphError
  feature_cycle : FeatureId → FeatureId → GraphError
  task_cycle : TaskId → TaskId → GraphError
  feature_already_depends feature_not_depends : FeatureId → FeatureId → GraphError
  task_already_depends task_not_depends : TaskId → TaskId → GraphError
  tasks_of_different_features : TaskId → FeatureId → TaskId → FeatureId → GraphError
  task_in_cancelled_feature task_in_completed_feature : FeatureId → GraphError
  edit_cancelled_feature edit_completed_feature : FeatureId → GraphError
  task_not_removable : TaskId → TaskStatus → GraphError
  reorder_count : ℕ → FeatureId → ℕ → GraphError
  reorder_missing : TaskId → FeatureId → GraphError
  illegal_transition : Reason → GraphError
  not_awaiting_merge : FeatureId → FeatureWorkControl → GraphError
  dependency_not_merged : FeatureId → FeatureId → Option FeatureCollabControl → GraphError
  already_integrating : FeatureId → FeatureId → GraphError

abbrev pub Outcome : Type 0
Outcome = Result GraphError Graph

-- `const x = map.get(id); if (x === undefined) throw e;`
abbrev pub require {ℓ} : {A : Type ℓ} → Option A → GraphError → Result GraphError A
require none e = Result.err e
require (some a) e = Result.ok a

-- The set of `dep` gets `id`; a missing set is made first.
unfoldable pub link : String → String → Successors → Successors
link dep id s = set dep (add_to_set id (nexts dep s)) s

-- The set of `dep`, if there is one, loses `id`.
unfoldable pub unlink : String → String → Successors → Successors
unlink dep id s = elim (get dep s) [ none ↦ s | some targets ↦ set dep (without id targets) s ]

same_key : (u v : String) (s : Successors) → u ≡ v → get u s ≡ get v s
same_key u v s e = rw e

pub mem-nexts-link :
    (dep id u w : String) (s : Successors)
    → Memᴰ w (nexts u (link dep id s)) ↔ (Memᴰ w (nexts u s) ⊎ ((u ≡ dep) × (w ≡ id)))
unfolding link nexts
mem-nexts-link dep id u w s = ground (
  arith,
  get-set dep u (add_to_set id (or_else (get dep s) [])) s,
  eq_iff dep u,
  mem-add_to_set id w (or_else (get dep s) []),
  same_key dep u s,
)

pub mem-nexts-unlink :
    (dep id u w : String) (s : Successors)
    → Memᴰ w (nexts u (unlink dep id s)) ↔ (Memᴰ w (nexts u s) × ¬ ((u ≡ dep) × (w ≡ id)))
unfolding unlink nexts
mem-nexts-unlink dep id u w s = elim (Option-cases (get dep s)) [
  | inl missing ↦
      ground (arith, missing, eq_iff dep u, same_key dep u s, λ (m : Memᴰ w []). Memᴰ.not-nil m)
  | inr (targets, found) ↦ ground (
    arith,
    found,
    get-set dep u (without id targets) s,
    eq_iff dep u,
    mem-without id w targets,
    same_key dep u s,
  )
]
