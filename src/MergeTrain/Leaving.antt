-- ===== src/MergeTrain/Leaving.antt =====
-- How a feature leaves the merge train (`completeIntegration` and `ejectFromQueue` of
-- src/core/merge-train/index.ts).
use vcode.Base.{ℕ, suc, ◌≡◌, ◌≢◌, Option, none, some, or_else}
use vcode.Base.Dict.{get}
use vcode.Types.Workflow.{FeatureId, FeatureCollabControl, branch_open}
use vcode.Types.Domain.{Feature}
use vcode.Fsm.Laws.{Step}
use vcode.Graph.Store.{Graph}
use vcode.Graph.Transitions.{triple_of}
use vcode.MergeTrain.{MergeTrainCoordinator, returned, complete_integration, eject_from_queue}
use vcode.MergeTrain.Invariant.{complete-Moves, eject-Moves}

-- The feature has the collab control `c`, no place in the queue and `count` re-entries, got there by a
-- step that the guards allow, and nothing else of it or of another feature has changed.
pub record Left (g g' : Graph) (id : FeatureId) (c : FeatureCollabControl) (count : Option ℕ)
    (f : Feature) : Type 0 where
  pub was : get id g.features ≡ some f
  pub allowed : Step (triple_of f) (record (triple_of f) { collab_control = c })
  pub now_is :
      get id g'.features
      ≡ some (record f {
        collab_control = c;
        merge_train_manual_position = none;
        merge_train_entered_at = none;
        merge_train_entry_seq = none;
        merge_train_reentry_count = count;
      })
  pub others : (k : FeatureId) → k ≢ id → get k g'.features ≡ get k g.features

-- A call of `completeIntegration` that returns has moved one feature to `merged` by a step that the
-- guards allow: its manual position, entry time and entry number are gone, and its count of re-entries
-- and all other fields are as before; the coordinator and every other feature stay as they were.
pub complete-Left :
    (train train' : MergeTrainCoordinator) (g g' : Graph) (id : FeatureId)
    → complete_integration train g id ≡ returned train' g'
    → (train' ≡ train)
      × ((f : Feature) × Left g g' id FeatureCollabControl.merged f.merge_train_reentry_count f)
complete-Left train train' g g' id e =
    let (same, (f, m)) = complete-Moves train train' g g' id e in
    (same, (f, record { was = m.was; allowed = m.allowed; now_is = m.now_is; others = m.others }))

-- A call of `ejectFromQueue` that returns has opened the branch of one feature again by a step that
-- the guards allow: its manual position, entry time and entry number are gone, its count of re-entries
-- is one more than before, where no count is zero, and all other fields are as before; the coordinator
-- and every other feature stay as they were.
pub eject-Left :
    (train train' : MergeTrainCoordinator) (g g' : Graph) (id : FeatureId)
    → eject_from_queue train g id ≡ returned train' g'
    → (train' ≡ train)
      × ((f : Feature) × Left g g' id branch_open
            (some (suc (or_else f.merge_train_reentry_count 0)))
            f)
eject-Left train train' g g' id e =
    let (same, (f, m)) = eject-Moves train train' g g' id e in
    (same, (f, record { was = m.was; allowed = m.allowed; now_is = m.now_is; others = m.others }))
