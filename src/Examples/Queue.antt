-- ===== src/Examples/Queue.antt =====
-- The merge train of src/core/merge-train/index.ts with one feature that waits for its merge and one
-- that is being integrated.
use vcode.Base.{suc, or_else, ◌≡◌, refl, arith, [], ◌∷◌, some, Memᴰ, string_eq, eq_iff}
use vcode.Base.Dict.{get, set, values}
use vcode.Base.Sort.{sort_by, insert_by}
use vcode.Types.Workflow.{
  FeatureCollabControl, awaiting_merge, merge_queued, integrating, branch_open,
}
use vcode.Types.Domain.{Feature}
use vcode.Fsm.Feature.{validate_feature_transition, validate_feature_collab_transition}
use vcode.Graph.Store.{Graph}
use vcode.Graph.Creation.{new_feature}
use vcode.Graph.Transitions.{transition_feature, update_merge_train_state}
use vcode.MergeTrain.{
  MergeTrainCoordinator, Call, returned, thrown, find_unmerged, enter_queue, enqueue_feature_merge,
  queued_features, next_to_integrate, complete_integration, eject_from_queue,
}
use vcode.MergeTrain.Order.{Before, next_to_integrate-Before}
use vcode.MergeTrain.Laws.{Enqueued, enqueue-Enqueued}
use vcode.MergeTrain.Invariant.{TrainIsSound, enqueued, TrainStep-IsSound}
use vcode.MergeTrain.Leaving.{Left, complete-Left, eject-Left}
use vcode.Examples.Fixtures.{start, feature_options}

abbrev waiting : Feature
waiting = record (new_feature (feature_options "f-ui") 1) {
  work_control = awaiting_merge;
  collab_control = branch_open;
}

abbrev merging : Feature
merging = record (new_feature (feature_options "f-api") 0) {
  work_control = awaiting_merge;
  collab_control = integrating;
  merge_train_entry_seq = some 4;
}

abbrev before_merge : Graph
before_merge = record start { features = ("f-ui", waiting) ∷ ("f-api", merging) ∷ [] }

abbrev train : MergeTrainCoordinator
train = record { entry_seq = 4 }

-- The state that a call leaves.
abbrev train_of : Call → MergeTrainCoordinator
train_of (returned t g) = t
train_of (thrown t g e) = t

abbrev graph_of : Call → Graph
graph_of (returned t g) = g
graph_of (thrown t g e) = g

abbrev entered : Call
entered = enqueue_feature_merge train before_merge 1700 "f-ui"

entry_returns :
    enqueue_feature_merge train before_merge 1700 "f-ui"
    ≡ returned (train_of entered) (graph_of entered)
unfolding enqueue_feature_merge get find_unmerged enter_queue transition_feature
    validate_feature_transition validate_feature_collab_transition update_merge_train_state set
entry_returns = refl

enqueue-Enqueued_example :
    (f : Feature) × Enqueued train (train_of entered) before_merge (graph_of entered) 1700 "f-ui" f
enqueue-Enqueued_example =
    enqueue-Enqueued train (train_of entered) before_merge (graph_of entered) 1700 "f-ui"
      entry_returns

before_merge-IsSound : TrainIsSound train before_merge.features
unfolding get
before_merge-IsSound = record {
  keyed = λ k f e. ground (arith, eq_iff "f-ui" k, eq_iff "f-api" k);
  one_integrating = λ j k f h at_j at_k is_f is_h.
      ground (arith, eq_iff "f-ui" k, eq_iff "f-api" k, eq_iff "f-ui" j, eq_iff "f-api" j);
  seq_bounded = λ k f e. ground (arith, eq_iff "f-ui" k, eq_iff "f-api" k);
}

TrainStep-IsSound_example : TrainIsSound (train_of entered) (graph_of entered).features
TrainStep-IsSound_example =
    TrainStep-IsSound train (train_of entered) before_merge (graph_of entered) "f-ui"
      before_merge-IsSound (enqueued 1700 entry_returns)

abbrev merged : Call
merged = complete_integration train before_merge "f-api"

merge_returns :
    complete_integration train before_merge "f-api" ≡ returned (train_of merged) (graph_of merged)
unfolding complete_integration get transition_feature validate_feature_transition
    validate_feature_collab_transition update_merge_train_state set
merge_returns = refl

complete-Left_example :
    (train_of merged ≡ train)
    × ((f : Feature) × Left before_merge
          (graph_of merged)
          "f-api"
          FeatureCollabControl.merged
          f.merge_train_reentry_count
          f)
complete-Left_example =
    complete-Left train (train_of merged) before_merge (graph_of merged) "f-api" merge_returns

abbrev queued : Graph
queued = graph_of entered

abbrev ejected : Call
ejected = eject_from_queue (train_of entered) queued "f-ui"

eject_returns :
    eject_from_queue (train_of entered) queued "f-ui"
    ≡ returned (train_of ejected) (graph_of ejected)
unfolding eject_from_queue enqueue_feature_merge get find_unmerged enter_queue transition_feature
    validate_feature_transition validate_feature_collab_transition update_merge_train_state set
eject_returns = refl

eject-Left_example :
    (train_of ejected ≡ train_of entered)
    × ((f : Feature) × Left queued
          (graph_of ejected)
          "f-ui"
          branch_open
          (some (suc (or_else f.merge_train_reentry_count 0)))
          f)
eject-Left_example =
    eject-Left (train_of entered) (train_of ejected) queued (graph_of ejected) "f-ui" eject_returns

ui_is_next : next_to_integrate queued ≡ some "f-ui"
unfolding next_to_integrate enqueue_feature_merge get sort_by insert_by queued_features values
    find_unmerged enter_queue transition_feature validate_feature_transition
    validate_feature_collab_transition update_merge_train_state set
ui_is_next = refl

next_to_integrate-Before_example :
    (f : Feature) × (f.id ≡ "f-ui")
    × Memᴰ f (values queued.features)
    × (f.collab_control ≡ merge_queued)
    × ((q : Feature)
        → Memᴰ q (values queued.features)
        → q.collab_control ≡ merge_queued
        → Before f q)
next_to_integrate-Before_example = next_to_integrate-Before queued "f-ui" ui_is_next
