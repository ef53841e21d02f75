-- ===== src/Fsm/TaskLifecycle.antt =====
-- The life of a task under the composite guard of src/core/fsm/index.ts.
use vcode.Base.{◌≡◌, ◌≢◌, ◌⊎◌, inl, inr, arith}
use vcode.Types.Workflow.{TaskStatus, TaskCollabControl, running, suspended}
use vcode.Fsm.Task.{TaskStatePair}
use vcode.Fsm.TaskLaws.{
  TaskMove, TaskCollabMove, TaskStep, TaskReach, here, next, initial, task_iff, prepare, run, rerun,
  cancel, open_pending, open_ready, open_running, open_stuck, open_failed, open_branch, merge,
  clash, suspend, resolve, resume,
}

-- The two final statuses have no move.
move_from :
    {c : TaskCollabControl} {s s' : TaskStatus}
    → TaskMove c s s'
    → (s ≢ TaskStatus.done) × (s ≢ TaskStatus.cancelled)
move_from prepare = (λ e. cc, λ e. cc)
move_from (run h) = (λ e. cc, λ e. cc)
move_from (rerun h) = (λ e. cc, λ e. cc)
move_from (cancel open_pending) = (λ e. cc, λ e. cc)
move_from (cancel open_ready) = (λ e. cc, λ e. cc)
move_from (cancel open_running) = (λ e. cc, λ e. cc)
move_from (cancel open_stuck) = (λ e. cc, λ e. cc)
move_from (cancel open_failed) = (λ e. cc, λ e. cc)
move_from _ = (λ e. cc, λ e. cc)

collab_move_facts :
    {s : TaskStatus} {c c' : TaskCollabControl}
    → TaskCollabMove s c c'
    → (c ≢ TaskCollabControl.merged)
      × (s ≢ TaskStatus.cancelled)
      × (c' ≡ TaskCollabControl.merged → s ≡ TaskStatus.done)
collab_move_facts (open_branch h) = (λ e. cc, h, λ e. cc)
collab_move_facts (merge h) = (λ e. cc, ground arith, λ e. h)
collab_move_facts (clash h) = (λ e. cc, h, λ e. cc)
collab_move_facts (suspend h) = (λ e. cc, ground arith, λ e. cc)
collab_move_facts (resolve h) = (λ e. cc, h, λ e. cc)
collab_move_facts (resume h) = (λ e. cc, h, λ e. cc)

-- A task that a run of allowed steps leaves merged is done.
pub merged_done :
    (t : TaskStatePair)
    → TaskReach initial t
    → t.collab_control ≡ TaskCollabControl.merged
    → t.status ≡ TaskStatus.done
merged_done t here e = cc
merged_done t (next {u} r h) e =
    let ((status, collab), _) = (task_iff u t).0 h in
    elim collab [
      | inr m ↦ (collab_move_facts m).2 e
      | inl same ↦
          let was = merged_done u r (cc) in
          elim status [ inl kept ↦ cc | inr m ↦ absurd ((move_from m).0 was) ]
    ]

-- A cancelled task allows no step, and neither does one that is done and merged.
pub task_final :
    (t u : TaskStatePair)
    → (t.status ≡ TaskStatus.cancelled)
      ⊎ ((t.status ≡ TaskStatus.done) × (t.collab_control ≡ TaskCollabControl.merged))
    → ¬ TaskStep t u
task_final t u final h =
    let ((status, collab), changed) = (task_iff t u).0 h in
    elim status [
      | inr m ↦ elim final [ inl e ↦ (move_from m).1 e | inr (e, _) ↦ (move_from m).0 e ]
      | inl kept ↦ elim collab [
        | inl same ↦ changed (kept, same)
        | inr m ↦ elim final [
          | inl e ↦ (collab_move_facts m).1 (cc)
          | inr (_, e) ↦ (collab_move_facts m).0 e
        ]
      ]
    ]

-- A suspended task does not start to run: an allowed step from it to `running` was made by a task
-- that was running.
pub suspended_waits :
    (t u : TaskStatePair)
    → TaskStep t u
    → t.collab_control ≡ suspended
    → u.status ≡ running
    → t.status ≡ running
suspended_waits t u h e r =
    let ((status, _), _) = (task_iff t u).0 h in
    elim status [ inl kept ↦ cc | inr m ↦ starts m r e ]
  where
    starts :
        {c : TaskCollabControl} {s s' : TaskStatus}
        → TaskMove c s s'
        → s' ≡ running
        → c ≡ suspended
        → s ≡ running
    starts prepare p q = cc
    starts (run h) p q = absurd (h q)
    starts (rerun h) p q = absurd (h q)
    starts (cancel k) p q = cc
    starts _ p q = cc
