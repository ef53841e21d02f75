-- ===== src/MergeTrain.antt =====
-- src/core/merge-train/index.ts: the coordinator of the merge queue. Its own state is `_entrySeq`;
-- each method takes it with the graph, and returns both also when it throws, since `enqueue` has
-- counted by then. The time of day is an argument.
pub mod Leaving
pub mod Order
pub mod Laws
pub mod Invariant
use Prim.Native.Nat.{compare}
use vcode.Base.{
  ℕ, ◌+◌, suc, Bool, true, false, ◌&&◌, not, List, [], ◌∷◌, Option, none, some, ◌==◌, ◌!=◌,
  string_eq, if◌then◌else◌, or_else, is_some, keep, Ordering,
}
use vcode.Base.Dict.{Dict, get, values}
use vcode.Base.Sort.{sort_by, then_by}
use vcode.Base.Results.{Result, ok, err}
use vcode.Types.Workflow.{
  FeatureId, FeatureCollabControl, awaiting_merge, merge_queued, integrating, branch_open,
  work_control_eq, feature_collab_eq,
}
use vcode.Types.Domain.{Feature}
use vcode.Graph.Store.{
  Graph, GraphError, Outcome, feature_missing, not_awaiting_merge, dependency_not_merged,
  already_integrating,
}
use vcode.Graph.Transitions.{
  FeatureTransitionPatch, MergeTrainUpdate, transition_feature, update_merge_train_state, absent,
  clear, to_value,
}

pub record MergeTrainCoordinator : Type 0 where
  pub entry_seq : ℕ

-- A call that returned, or one that threw, with the state that it left.
pub data Call : Type 0 where
  returned : MergeTrainCoordinator → Graph → Call
  thrown : MergeTrainCoordinator → Graph → GraphError → Call

-- A call of a graph operation, which throws before it changes anything, and what follows.
abbrev pub then_with : MergeTrainCoordinator → Graph → Outcome → (Graph → Call) → Call
then_with train graph (ok graph') k = k graph'
then_with train graph (err e) k = thrown train graph e

abbrev pub to_collab : FeatureCollabControl → FeatureTransitionPatch
to_collab c = record { work_control = none; status = none; collab_control = some c }

-- `dep?.collabControl`
abbrev pub collab_of : Option Feature → Option FeatureCollabControl
collab_of none = none
collab_of (some f) = some f.collab_control

abbrev pub is_merged : Option Feature → Bool
is_merged none = false
is_merged (some f) = f.collab_control == FeatureCollabControl.merged

-- The loop over `feature.dependsOn`: the first dependency that is not merged.
unfoldable pub find_unmerged : Dict Feature → List FeatureId → Option FeatureId
find_unmerged features [] = none
find_unmerged features (dep ∷ deps) =
    let rest = find_unmerged features deps in
    if not (is_merged (get dep features)) then some dep else rest

-- From `this._entrySeq++` on.
unfoldable pub enter_queue : MergeTrainCoordinator → Graph → ℕ → FeatureId → Feature → Call
enter_queue train graph now id feature =
    let train' = record train { entry_seq = suc train.entry_seq } in
    then_with train' graph (transition_feature graph id (to_collab merge_queued)) λ graph'.
      then_with train' graph'
        (update_merge_train_state graph' id (record {
          manual_position = absent;
          entered_at = to_value now;
          entry_seq = to_value train'.entry_seq;
          reentry_count = to_value (or_else feature.merge_train_reentry_count 0);
        }))
        (returned train')

unfoldable pub enqueue_feature_merge : MergeTrainCoordinator → Graph → ℕ → FeatureId → Call
enqueue_feature_merge train graph now id = elim (get id graph.features) [
  | none ↦ thrown train graph (feature_missing id)
  | some feature ↦
      if feature.work_control != awaiting_merge
      then thrown train graph (not_awaiting_merge id feature.work_control)
      else (elim (find_unmerged graph.features feature.depends_on) [
        | some dep ↦
            thrown train graph (dependency_not_merged id dep (collab_of (get dep graph.features)))
        | none ↦ enter_queue train graph now id feature
      ])
]

-- The comparator of `nextToIntegrate`.
unfoldable pub compare_queued : Feature → Feature → Ordering
compare_queued a b =
    let a_has_pos = is_some a.merge_train_manual_position in
    let b_has_pos = is_some b.merge_train_manual_position in
    let by_age =
      then_by
        (compare (or_else b.merge_train_reentry_count 0) (or_else a.merge_train_reentry_count 0))
        (compare (or_else a.merge_train_entry_seq 0) (or_else b.merge_train_entry_seq 0)) in
    if a_has_pos && not b_has_pos
    then Ordering.lt
    else if not a_has_pos && b_has_pos
    then Ordering.gt
    else if a_has_pos && b_has_pos
    then then_by
        (compare (or_else a.merge_train_manual_position 0)
          (or_else b.merge_train_manual_position 0))
        by_age
    else by_age

unfoldable pub queued_features : Graph → List Feature
queued_features graph = keep (λ f. f.collab_control == merge_queued) (values graph.features)

abbrev pub first_id : List Feature → Option FeatureId
first_id [] = none
first_id (f ∷ rest) = some f.id

unfoldable pub next_to_integrate : Graph → Option FeatureId
next_to_integrate graph = first_id (sort_by compare_queued (queued_features graph))

-- The loop over the features: the first other one that is integrating.
unfoldable pub find_integrating : FeatureId → List Feature → Option FeatureId
find_integrating id [] = none
find_integrating id (f ∷ rest) =
    let later = find_integrating id rest in
    if f.collab_control == integrating && f.id != id then some f.id else later

unfoldable pub begin_integration : MergeTrainCoordinator → Graph → FeatureId → Call
begin_integration train graph id = elim (find_integrating id (values graph.features)) [
  | some other ↦ thrown train graph (already_integrating id other)
  | none ↦ elim (get id graph.features) [
    | none ↦ thrown train graph (feature_missing id)
    | some feature ↦
        then_with train graph (transition_feature graph id (to_collab integrating)) (returned train)
  ]
]

unfoldable pub complete_integration : MergeTrainCoordinator → Graph → FeatureId → Call
complete_integration train graph id = elim (get id graph.features) [
  | none ↦ thrown train graph (feature_missing id)
  | some feature ↦
      then_with train graph (transition_feature graph id (to_collab FeatureCollabControl.merged))
        λ graph'.
          then_with train graph'
            (update_merge_train_state graph' id (record {
              manual_position = clear;
              entered_at = clear;
              entry_seq = clear;
              reentry_count = absent;
            }))
            (returned train)
]

unfoldable pub eject_from_queue : MergeTrainCoordinator → Graph → FeatureId → Call
eject_from_queue train graph id = elim (get id graph.features) [
  | none ↦ thrown train graph (feature_missing id)
  | some feature ↦
      let reentry_count = or_else feature.merge_train_reentry_count 0 + 1 in
      then_with train graph (transition_feature graph id (to_collab branch_open)) λ graph'.
        then_with train graph'
          (update_merge_train_state graph' id (record {
            manual_position = clear;
            entered_at = clear;
            entry_seq = clear;
            reentry_count = to_value reentry_count;
          }))
          (returned train)
]
