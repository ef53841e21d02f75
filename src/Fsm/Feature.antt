-- ===== src/Fsm/Feature.antt =====
-- src/core/fsm/index.ts, the guards of a feature: its three axes, each with its table, and the
-- composite guard over the triple.
use vcode.Base.{
  Bool, false, ◌&&◌, ◌||◌, not, List, [], ◌∷◌, Option, none, some, ◌==◌, ◌!=◌, if◌then◌else◌,
  includes,
}
use vcode.Types.Workflow.{
  UnitStatus, FeatureWorkControl, FeatureCollabControl, discussing, researching, planning,
  executing, ci_check, verifying, awaiting_merge, summarizing, replanning, work_complete,
  branch_open, merge_queued, integrating, unit_status_eq, work_control_eq, feature_collab_eq,
}
use vcode.Fsm.Table.{Reason, TransitionResult, valid, invalid, ◌>>◌, reject_if, when, allows}

pub record FeatureStateTriple : Type 0 where
  pub work_control : FeatureWorkControl
  pub status : UnitStatus
  pub collab_control : FeatureCollabControl

-- The happy path, in order.
abbrev pub phase_order : List FeatureWorkControl
phase_order =
    discussing ∷ researching ∷ planning ∷ executing ∷ ci_check ∷ verifying ∷ awaiting_merge
    ∷ summarizing ∷ work_complete ∷ []

-- The element behind the first occurrence of `current`: `order[order.indexOf(current) + 1]`.
abbrev successor_in : List FeatureWorkControl → FeatureWorkControl → Option FeatureWorkControl
successor_in [] current = none
successor_in (a ∷ []) current = none
successor_in (a ∷ b ∷ rest) current =
    let later = successor_in (b ∷ rest) current in if a == current then some b else later

unfoldable pub next_phase : FeatureWorkControl → Option FeatureWorkControl
next_phase current = successor_in phase_order current

abbrev pub replannable_failure_phases : List FeatureWorkControl
replannable_failure_phases = executing ∷ ci_check ∷ verifying ∷ awaiting_merge ∷ []

abbrev pub failure_statuses : List UnitStatus
failure_statuses = UnitStatus.failed ∷ []

-- `proposed === nextPhase(current)`
abbrev is_next : Option FeatureWorkControl → FeatureWorkControl → Bool
is_next none proposed = false
is_next (some a) proposed = proposed == a

unfoldable pub validate_feature_work_transition :
    FeatureWorkControl → FeatureWorkControl → UnitStatus → FeatureCollabControl → TransitionResult
unfolding next_phase includes
validate_feature_work_transition current proposed status collab =
    if current == proposed
    then invalid (Reason.no_op_work current proposed)
    else if collab == FeatureCollabControl.cancelled || status == UnitStatus.cancelled
    then invalid Reason.work_when_cancelled
    else if is_next (next_phase current) proposed && status == UnitStatus.done
    then (do
      reject_if (collab == FeatureCollabControl.conflict) Reason.advance_during_conflict
      reject_if (current == verifying && collab != branch_open)
          Reason.awaiting_merge_requires_branch_open
      reject_if (current == awaiting_merge && collab != FeatureCollabControl.merged)
          Reason.summarizing_requires_merged
      valid)
    else if current == awaiting_merge && proposed == work_complete && status == UnitStatus.done
    then (do
      reject_if (collab != FeatureCollabControl.merged) Reason.work_complete_requires_merged
      valid)
    else if includes current replannable_failure_phases
        && proposed == replanning
        && includes status failure_statuses
    then valid
    else if current == replanning
        && (proposed == planning || proposed == executing)
        && status == UnitStatus.done
    then valid
    else invalid (Reason.illegal_work current status proposed)

abbrev pub status_transitions : List (UnitStatus × List UnitStatus)
status_transitions =
    (UnitStatus.pending, UnitStatus.in_progress ∷ UnitStatus.cancelled ∷ [])
    ∷ (UnitStatus.in_progress, UnitStatus.done ∷ UnitStatus.failed ∷ UnitStatus.cancelled ∷ [])
    ∷ []

unfoldable pub validate_feature_status_transition :
    UnitStatus → UnitStatus → FeatureWorkControl → FeatureCollabControl → TransitionResult
unfolding allows
validate_feature_status_transition current proposed work collab = do
  reject_if (current == proposed) (Reason.no_op_status current)
  reject_if (collab == FeatureCollabControl.cancelled && proposed != UnitStatus.cancelled)
      Reason.only_cancelled_status
  reject_if (work == work_complete) Reason.work_complete_status
  reject_if (not (allows status_transitions current proposed))
      (Reason.illegal_status current proposed)
  valid

abbrev pub collab_transitions : List (FeatureCollabControl × List FeatureCollabControl)
collab_transitions =
    (FeatureCollabControl.none, branch_open ∷ cancelled ∷ [])
    ∷ (branch_open, merge_queued ∷ conflict ∷ cancelled ∷ [])
    ∷ (merge_queued, integrating ∷ branch_open ∷ cancelled ∷ [])
    ∷ (integrating, merged ∷ conflict ∷ cancelled ∷ [])
    ∷ (conflict, branch_open ∷ merge_queued ∷ cancelled ∷ [])
    ∷ []
  where
    merged : FeatureCollabControl
    merged = FeatureCollabControl.merged

    conflict : FeatureCollabControl
    conflict = FeatureCollabControl.conflict

    cancelled : FeatureCollabControl
    cancelled = FeatureCollabControl.cancelled

unfoldable pub validate_feature_collab_transition :
    FeatureCollabControl → FeatureCollabControl → FeatureWorkControl → UnitStatus → TransitionResult
unfolding allows
validate_feature_collab_transition current proposed work status = do
  reject_if (current == proposed) (Reason.no_op_collab current)
  reject_if (proposed == branch_open && current == FeatureCollabControl.none && work != executing)
      Reason.branch_open_requires_executing
  reject_if (proposed == merge_queued && current == branch_open && work != awaiting_merge)
      Reason.merge_queued_requires_awaiting_merge
  reject_if
      (proposed == merge_queued
        && current == FeatureCollabControl.conflict
        && work != awaiting_merge)
      Reason.conflict_to_merge_queued_requires_awaiting_merge
  reject_if (proposed == branch_open && current == merge_queued && work != awaiting_merge)
      Reason.merge_queued_to_branch_open_requires_awaiting_merge
  reject_if (not (allows collab_transitions current proposed))
      (Reason.illegal_collab current proposed)
  valid

-- `proposed.workControl === 'work_complete' ? 'done' : 'pending'`
abbrev pub expected_status : FeatureWorkControl → UnitStatus
expected_status work = if work == work_complete then UnitStatus.done else UnitStatus.pending

-- The composite guard: each changed axis in turn, the collab axis against the proposed work control
-- and status.
unfoldable pub validate_feature_transition :
    FeatureStateTriple → FeatureStateTriple → TransitionResult
validate_feature_transition current proposed =
    let work_changed = current.work_control != proposed.work_control in
    let status_changed = current.status != proposed.status in
    let collab_changed = current.collab_control != proposed.collab_control in
    do
      reject_if (not work_changed && not status_changed && not collab_changed)
          Reason.nothing_changed
      when work_changed (do
        validate_feature_work_transition current.work_control proposed.work_control current.status
            current.collab_control
        reject_if (proposed.status != expected_status proposed.work_control) (
            Reason.status_must_be (expected_status proposed.work_control) proposed.work_control
              proposed.status))
      when (status_changed && not work_changed) (
          validate_feature_status_transition current.status proposed.status current.work_control
            current.collab_control)
      when collab_changed (
          validate_feature_collab_transition current.collab_control proposed.collab_control
            proposed.work_control proposed.status)
      valid
