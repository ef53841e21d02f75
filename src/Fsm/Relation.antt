-- ===== src/Fsm/Relation.antt =====
-- The moves of the three axes of a feature written as relations, apart from the guards that decide
-- them (src/core/fsm/index.ts).
use vcode.Base.{◌≡◌, ◌≢◌, ◌↔◌, ◌⊎◌, arith}
use vcode.Types.Workflow.{
  UnitStatus, FeatureWorkControl, FeatureCollabControl, discussing, researching, planning,
  executing, ci_check, verifying, awaiting_merge, summarizing, replanning, work_complete,
  branch_open, merge_queued, integrating,
}
use vcode.Fsm.Table.{valid}
use vcode.Fsm.Feature.{
  validate_feature_work_transition, validate_feature_status_transition,
  validate_feature_collab_transition,
}

-- The phase is done and nothing holds it back.
pub record IsClear (s : UnitStatus) (c : FeatureCollabControl) : Type 0 where
  pub finished : s ≡ UnitStatus.done
  pub live : c ≢ FeatureCollabControl.cancelled
  pub unblocked : c ≢ FeatureCollabControl.conflict

-- The phases whose failure goes back to planning.
pub data IsRepairable : FeatureWorkControl → Type 0 where
  while_executing : IsRepairable executing
  while_checking : IsRepairable ci_check
  while_verifying : IsRepairable verifying
  while_merging : IsRepairable awaiting_merge

pub data WorkMove (s : UnitStatus) (c : FeatureCollabControl)
    : FeatureWorkControl → FeatureWorkControl → Type 0 where
  to_research : IsClear s c → WorkMove s c discussing researching
  to_plan : IsClear s c → WorkMove s c researching planning
  to_execute : IsClear s c → WorkMove s c planning executing
  to_check : IsClear s c → WorkMove s c executing ci_check
  to_verify : IsClear s c → WorkMove s c ci_check verifying
  to_merge : s ≡ UnitStatus.done → c ≡ branch_open → WorkMove s c verifying awaiting_merge
  to_summary :
      s ≡ UnitStatus.done
      → c ≡ FeatureCollabControl.merged
      → WorkMove s c awaiting_merge summarizing
  skip_summary :
      s ≡ UnitStatus.done
      → c ≡ FeatureCollabControl.merged
      → WorkMove s c awaiting_merge work_complete
  to_complete : IsClear s c → WorkMove s c summarizing work_complete
  repair :
      {w : FeatureWorkControl}
      → IsRepairable w
      → s ≡ UnitStatus.failed
      → c ≢ FeatureCollabControl.cancelled
      → WorkMove s c w replanning
  replan :
      s ≡ UnitStatus.done → c ≢ FeatureCollabControl.cancelled → WorkMove s c replanning planning
  reexecute :
      s ≡ UnitStatus.done → c ≢ FeatureCollabControl.cancelled → WorkMove s c replanning executing

ruleset moves = (
  to_research, to_plan, to_execute, to_check, to_verify, to_merge, to_summary, skip_summary,
  to_complete, repair, replan, reexecute, while_executing, while_checking, while_verifying,
  while_merging,
)

work_sound :
    (w w' : FeatureWorkControl) (s : UnitStatus) (c : FeatureCollabControl)
    → validate_feature_work_transition w w' s c ≡ valid
    → WorkMove s c w w'
unfolding validate_feature_work_transition
work_sound discussing w' s c h = grind (arith, moves)
work_sound _ w' s c h = grind (arith, moves)

work_covered :
    {w w' : FeatureWorkControl} {s : UnitStatus} {c : FeatureCollabControl}
    → WorkMove s c w w'
    → validate_feature_work_transition w w' s c ≡ valid
unfolding validate_feature_work_transition
work_covered (to_research h) = ground arith
work_covered (to_plan h) = ground arith
work_covered (to_execute h) = ground arith
work_covered (to_check h) = ground arith
work_covered (to_verify h) = ground arith
work_covered (to_merge e k) = ground arith
work_covered (to_summary e k) = ground arith
work_covered (skip_summary e k) = ground arith
work_covered (to_complete h) = ground arith
work_covered (repair while_executing e k) = ground arith
work_covered (repair while_checking e k) = ground arith
work_covered (repair while_verifying e k) = ground arith
work_covered (repair while_merging e k) = ground arith
work_covered (replan e k) = ground arith
work_covered (reexecute e k) = ground arith

-- The guard of the work control allows exactly the moves of the relation, over all phases, statuses
-- and collab controls.
pub work_iff :
    (w w' : FeatureWorkControl) (s : UnitStatus) (c : FeatureCollabControl)
    → (validate_feature_work_transition w w' s c ≡ valid) ↔ WorkMove s c w w'
work_iff w w' s c = (work_sound w w' s c, work_covered)

-- The moves of the collab control in a feature whose work control is `w`.
pub data CollabMove (w : FeatureWorkControl)
    : FeatureCollabControl → FeatureCollabControl → Type 0 where
  open_branch : w ≡ executing → CollabMove w FeatureCollabControl.none branch_open
  enqueue : w ≡ awaiting_merge → CollabMove w branch_open merge_queued
  dequeue : w ≡ awaiting_merge → CollabMove w merge_queued branch_open
  requeue : w ≡ awaiting_merge → CollabMove w FeatureCollabControl.conflict merge_queued
  resolve : CollabMove w FeatureCollabControl.conflict branch_open
  clash : CollabMove w branch_open FeatureCollabControl.conflict
  integrate : CollabMove w merge_queued integrating
  merge : CollabMove w integrating FeatureCollabControl.merged
  clash_late : CollabMove w integrating FeatureCollabControl.conflict
  cancel :
      {c : FeatureCollabControl}
      → c ≢ FeatureCollabControl.merged
      → c ≢ FeatureCollabControl.cancelled
      → CollabMove w c FeatureCollabControl.cancelled

ruleset collab_moves =
    (open_branch, enqueue, dequeue, requeue, resolve, clash, integrate, merge, clash_late, cancel)

collab_sound :
    (c c' : FeatureCollabControl) (w : FeatureWorkControl) (s : UnitStatus)
    → validate_feature_collab_transition c c' w s ≡ valid
    → CollabMove w c c'
unfolding validate_feature_collab_transition
collab_sound FeatureCollabControl.none c' w s h = grind (arith, collab_moves)
collab_sound _ c' w s h = grind (arith, collab_moves)

collab_covered :
    {c c' : FeatureCollabControl} {w : FeatureWorkControl} (s : UnitStatus)
    → CollabMove w c c'
    → validate_feature_collab_transition c c' w s ≡ valid
unfolding validate_feature_collab_transition
collab_covered s (open_branch h) = ground arith
collab_covered s (cancel h k) = ground arith
collab_covered s (enqueue h) = ground arith
collab_covered s (dequeue h) = ground arith
collab_covered s (requeue h) = ground arith
collab_covered s _ = ground arith

-- The guard of the collab control allows exactly the moves of the relation, over all values.
pub collab_iff :
    (c c' : FeatureCollabControl) (w : FeatureWorkControl) (s : UnitStatus)
    → (validate_feature_collab_transition c c' w s ≡ valid) ↔ CollabMove w c c'
collab_iff c c' w s = (collab_sound c c' w s, collab_covered s)

-- The moves of the status within one phase.
pub data StatusMove : UnitStatus → UnitStatus → Type 0 where
  start : StatusMove UnitStatus.pending UnitStatus.in_progress
  drop : StatusMove UnitStatus.pending UnitStatus.cancelled
  finish : StatusMove UnitStatus.in_progress UnitStatus.done
  fail : StatusMove UnitStatus.in_progress UnitStatus.failed
  abort : StatusMove UnitStatus.in_progress UnitStatus.cancelled

status_sound :
    (s s' : UnitStatus) (w : FeatureWorkControl) (c : FeatureCollabControl)
    → validate_feature_status_transition s s' w c ≡ valid
    → StatusMove s s'
      × (w ≢ work_complete)
      × ((c ≢ FeatureCollabControl.cancelled) ⊎ (s' ≡ UnitStatus.cancelled))
unfolding validate_feature_status_transition
status_sound UnitStatus.pending s' w c h = grind (arith, start, drop, finish, fail, abort)
status_sound _ s' w c h = grind (arith, start, drop, finish, fail, abort)

status_covered :
    {s s' : UnitStatus} (w : FeatureWorkControl) (c : FeatureCollabControl)
    → StatusMove s s'
    → w ≢ work_complete
    → (c ≢ FeatureCollabControl.cancelled) ⊎ (s' ≡ UnitStatus.cancelled)
    → validate_feature_status_transition s s' w c ≡ valid
unfolding validate_feature_status_transition
status_covered w c start h k = ground arith
status_covered w c _ h k = ground arith

-- The guard of the status allows exactly the five moves of the relation, outside `work_complete`,
-- and to a cancelled feature only the status `cancelled`.
pub status_iff :
    (s s' : UnitStatus) (w : FeatureWorkControl) (c : FeatureCollabControl)
    → (validate_feature_status_transition s s' w c ≡ valid) ↔ (
        StatusMove s s'
        × (w ≢ work_complete)
        × ((c ≢ FeatureCollabControl.cancelled) ⊎ (s' ≡ UnitStatus.cancelled)))
status_iff s s' w c = (status_sound s s' w c, λ (m, h, k). status_covered w c m h k)
