-- ===== src/Fsm/TaskLaws.antt =====
-- What the guards of a task allow, and what runs of the composite guard keep
-- (src/core/fsm/index.ts, `validateTaskTransition`).
use vcode.Base.{◌≡◌, ◌≢◌, refl, ◌↔◌, ◌⊎◌, arith, Bool, true, not, ◌&&◌}
use vcode.Types.Workflow.{
  TaskStatus, TaskCollabControl, ready, running, stuck, suspended, task_status_eq, task_collab_eq,
}
use vcode.Fsm.Table.{Reason, valid, reject_if}
use vcode.Fsm.Task.{
  TaskStatePair, validate_task_status_transition, validate_task_collab_transition,
  validate_task_transition,
}

pub data IsOpen : TaskStatus → Type 0 where
  open_pending : IsOpen TaskStatus.pending
  open_ready : IsOpen ready
  open_running : IsOpen running
  open_stuck : IsOpen stuck
  open_failed : IsOpen TaskStatus.failed

-- The moves of the status of a task whose collab control is `c`.
pub data TaskMove (c : TaskCollabControl) : TaskStatus → TaskStatus → Type 0 where
  prepare : TaskMove c TaskStatus.pending ready
  run : c ≢ suspended → TaskMove c ready running
  rerun : c ≢ suspended → TaskMove c stuck running
  yield : TaskMove c running ready
  retry : TaskMove c stuck ready
  complete : TaskMove c running TaskStatus.done
  fail : TaskMove c running TaskStatus.failed
  give_up : TaskMove c stuck TaskStatus.failed
  stall : TaskMove c running stuck
  cancel : {s : TaskStatus} → IsOpen s → TaskMove c s TaskStatus.cancelled

ruleset task_moves = (
  prepare, run, rerun, yield, retry, complete, fail, give_up, stall, cancel, open_pending,
  open_ready, open_running, open_stuck, open_failed,
)

status_sound :
    (s s' : TaskStatus) (c : TaskCollabControl)
    → validate_task_status_transition s s' c ≡ valid
    → TaskMove c s s'
unfolding validate_task_status_transition
status_sound TaskStatus.pending s' c h = grind (arith, task_moves)
status_sound _ s' c h = grind (arith, task_moves)

status_covered :
    {s s' : TaskStatus} {c : TaskCollabControl}
    → TaskMove c s s'
    → validate_task_status_transition s s' c ≡ valid
unfolding validate_task_status_transition
status_covered (run h) = ground arith
status_covered (rerun h) = ground arith
status_covered (cancel open_pending) = refl
status_covered (cancel open_ready) = refl
status_covered (cancel _) = refl
status_covered _ = refl

-- The status guard of a task allows exactly the moves of the relation, over all values.
pub task_status_iff :
    (s s' : TaskStatus) (c : TaskCollabControl)
    → (validate_task_status_transition s s' c ≡ valid) ↔ TaskMove c s s'
task_status_iff s s' c = (status_sound s s' c, status_covered)

-- The moves of the collab control of a task whose status is `s`.
pub data TaskCollabMove (s : TaskStatus) : TaskCollabControl → TaskCollabControl → Type 0 where
  open_branch :
      s ≢ TaskStatus.cancelled
      → TaskCollabMove s TaskCollabControl.none TaskCollabControl.branch_open
  merge :
      s ≡ TaskStatus.done → TaskCollabMove s TaskCollabControl.branch_open TaskCollabControl.merged
  clash :
      s ≢ TaskStatus.cancelled
      → TaskCollabMove s TaskCollabControl.branch_open TaskCollabControl.conflict
  suspend : s ≡ running → TaskCollabMove s TaskCollabControl.branch_open suspended
  resolve :
      s ≢ TaskStatus.cancelled
      → TaskCollabMove s TaskCollabControl.conflict TaskCollabControl.branch_open
  resume : s ≢ TaskStatus.cancelled → TaskCollabMove s suspended TaskCollabControl.branch_open

collab_sound :
    (c c' : TaskCollabControl) (s : TaskStatus)
    → validate_task_collab_transition c c' s ≡ valid
    → TaskCollabMove s c c'
unfolding validate_task_collab_transition
collab_sound TaskCollabControl.none c' s h =
    grind (arith, open_branch, merge, clash, suspend, resolve, resume)
collab_sound _ c' s h = grind (arith, open_branch, merge, clash, suspend, resolve, resume)

collab_covered :
    {c c' : TaskCollabControl} {s : TaskStatus}
    → TaskCollabMove s c c'
    → validate_task_collab_transition c c' s ≡ valid
unfolding validate_task_collab_transition
collab_covered (open_branch h) = ground arith
collab_covered (merge h) = ground arith
collab_covered (clash h) = ground arith
collab_covered (suspend h) = ground arith
collab_covered (resolve h) = ground arith
collab_covered (resume h) = ground arith

-- The collab guard of a task allows exactly the moves of the relation, over all values.
pub task_collab_iff :
    (c c' : TaskCollabControl) (s : TaskStatus)
    → (validate_task_collab_transition c c' s ≡ valid) ↔ TaskCollabMove s c c'
task_collab_iff c c' s = (collab_sound c c' s, collab_covered)

abbrev pub TaskStep : TaskStatePair → TaskStatePair → Type 0
TaskStep t u = validate_task_transition t u ≡ valid

pub data TaskReach (t : TaskStatePair) : TaskStatePair → Type 0 where
  here : TaskReach t t
  next : {u v : TaskStatePair} → TaskReach t u → TaskStep u v → TaskReach t v

-- The state in which `createTask` makes a task.
abbrev pub initial : TaskStatePair
initial = record { status = TaskStatus.pending; collab_control = TaskCollabControl.none }

-- What a step does: it keeps an axis or moves it, the collab axis under the new status.
abbrev pub TaskParts : TaskStatePair → TaskStatePair → Type 0
TaskParts t u =
    ((u.status ≡ t.status) ⊎ TaskMove t.collab_control t.status u.status)
    × ((u.collab_control ≡ t.collab_control)
        ⊎ TaskCollabMove u.status t.collab_control u.collab_control)

unchanged :
    {a b : Bool}
    → a ≡ true
    → b ≡ true
    → ¬ (reject_if (not (not a) && not (not b)) Reason.nothing_changed ≡ valid)
unchanged p q h = cc (rw (p, q) at h)

-- The composite guard of a task allows exactly the pairs that keep or move each axis by its
-- relation, the collab control under the new status, and change something.
pub task_iff :
    (t u : TaskStatePair)
    → TaskStep t u
      ↔ (TaskParts t u × ¬ ((u.status ≡ t.status) × (u.collab_control ≡ t.collab_control)))
unfolding validate_task_transition
task_iff t u = ground (
  arith,
  task_status_iff t.status u.status t.collab_control,
  task_collab_iff t.collab_control u.collab_control u.status,
  task_status_eq.equal_iff t.status u.status,
  task_collab_eq.equal_iff t.collab_control u.collab_control,
)
