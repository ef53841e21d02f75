-- ===== src/Fsm/Task.antt =====
-- src/core/fsm/index.ts, the guards of a task: its two axes, each with its table, and the composite
-- guard over the pair.
use vcode.Base.{◌&&◌, not, List, [], ◌∷◌, ◌==◌, ◌!=◌}
use vcode.Types.Workflow.{
  TaskStatus, TaskCollabControl, ready, running, stuck, suspended, task_status_eq, task_collab_eq,
}
use vcode.Fsm.Table.{Reason, TransitionResult, valid, ◌>>◌, reject_if, when, allows}

abbrev pub task_status_transitions : List (TaskStatus × List TaskStatus)
task_status_transitions =
    (TaskStatus.pending, ready ∷ TaskStatus.cancelled ∷ [])
    ∷ (ready, running ∷ TaskStatus.cancelled ∷ [])
    ∷ (running, ready ∷ TaskStatus.done ∷ TaskStatus.failed ∷ stuck ∷ TaskStatus.cancelled ∷ [])
    ∷ (stuck, ready ∷ running ∷ TaskStatus.failed ∷ TaskStatus.cancelled ∷ [])
    ∷ (TaskStatus.failed, TaskStatus.cancelled ∷ [])
    ∷ []

unfoldable pub validate_task_status_transition :
    TaskStatus → TaskStatus → TaskCollabControl → TransitionResult
unfolding allows
validate_task_status_transition current proposed collab = do
  reject_if (current == proposed) (Reason.no_op_task_status current)
  reject_if (proposed == running && collab == suspended) Reason.running_while_suspended
  reject_if (not (allows task_status_transitions current proposed))
      (Reason.illegal_task_status current proposed)
  valid

abbrev pub task_collab_transitions : List (TaskCollabControl × List TaskCollabControl)
task_collab_transitions =
    (TaskCollabControl.none, TaskCollabControl.branch_open ∷ [])
    ∷ (
      TaskCollabControl.branch_open,
      TaskCollabControl.merged ∷ TaskCollabControl.conflict ∷ suspended ∷ [],
    )
    ∷ (TaskCollabControl.conflict, TaskCollabControl.branch_open ∷ [])
    ∷ (suspended, TaskCollabControl.branch_open ∷ [])
    ∷ []

unfoldable pub validate_task_collab_transition :
    TaskCollabControl → TaskCollabControl → TaskStatus → TransitionResult
unfolding allows
validate_task_collab_transition current proposed status = do
  reject_if (current == proposed) (Reason.no_op_task_collab current)
  reject_if (status == TaskStatus.cancelled) Reason.collab_on_cancelled_task
  reject_if (proposed == suspended && status != running) Reason.suspend_not_running
  reject_if (proposed == TaskCollabControl.merged && status != TaskStatus.done)
      Reason.merge_not_done
  reject_if (not (allows task_collab_transitions current proposed))
      (Reason.illegal_task_collab current proposed)
  valid

pub record TaskStatePair : Type 0 where
  pub status : TaskStatus
  pub collab_control : TaskCollabControl

unfoldable pub validate_task_transition : TaskStatePair → TaskStatePair → TransitionResult
validate_task_transition current proposed =
    let status_changed = current.status != proposed.status in
    let collab_changed = current.collab_control != proposed.collab_control in
    do
      reject_if (not status_changed && not collab_changed) Reason.nothing_changed
      when status_changed
          (validate_task_status_transition current.status proposed.status current.collab_control)
      when collab_changed (
          validate_task_collab_transition current.collab_control proposed.collab_control
            proposed.status)
      valid
