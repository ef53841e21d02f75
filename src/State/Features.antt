-- ===== src/State/Features.antt =====
-- The derived states of one feature and one task (src/core/state/index.ts).
use vcode.Base.{
  ℕ, ◌+◌, ◌≤◌, ◌<◌, ◌≡◌, ◌≢◌, refl, ◌↔◌, ◌⊎◌, arith, true, false, List, [], ◌∷◌, Option, All, ltb,
  or_else, none, some, length, Memᴰ, Memᴰ-cons,
}
use mathlib.Core.List.Memᴰ
use vcode.Types.Workflow.{
  DerivedUnitStatus, TaskStatus, TaskCollabControl, FeatureCollabControl, work_complete, suspended,
  task_status_eq,
}
use vcode.Types.Domain.{Feature, Task}
use vcode.Types.Runs.{AgentRun, retry_await, await_response, await_approval}
use vcode.State.{
  run_blocks, is_under_way, derive_task_blocked, derive_feature_done, derive_feature_unit_status,
  failed_count,
}

-- A retry is not due before its time, and one with no time set is never due.
abbrev pub IsAhead : Option ℕ → ℕ → Type 0
IsAhead none now = Unit
IsAhead (some at) now = now < at

-- A run keeps its unit waiting: for an answer, for an approval, or for a retry that is not due.
abbrev pub Waits : AgentRun → ℕ → Type 0
Waits run now =
    (run.run_status ≡ await_response)
    ⊎ (run.run_status ≡ await_approval)
    ⊎ ((run.run_status ≡ retry_await) × IsAhead run.retry_at now)

IsAhead-iff : (o : Option ℕ) (now : ℕ) → (ltb now (or_else o (now + 1)) ≡ true) ↔ IsAhead o now
IsAhead-iff none now = ground arith
IsAhead-iff (some at) now = ground arith

pub run_blocks_iff : (run : AgentRun) (now : ℕ) → (run_blocks run now ≡ true) ↔ Waits run now
unfolding run_blocks
run_blocks_iff run now = ground (arith, IsAhead-iff run.retry_at now)

-- Neither cancelled nor done.
abbrev pub IsLive : Feature → Type 0
IsLive f =
    (f.collab_control ≢ FeatureCollabControl.cancelled)
    × ¬ ((f.work_control ≡ work_complete) × (f.collab_control ≡ FeatureCollabControl.merged))

-- The one state that is not under way: complete without a branch.
abbrev pub IsIdle : Feature → Type 0
IsIdle f = (f.work_control ≡ work_complete) × (f.collab_control ≡ FeatureCollabControl.none)

abbrev pub IsHeldBack : Task → Option AgentRun → ℕ → Type 0
IsHeldBack task none now =
    (task.collab_control ≡ suspended) ⊎ (task.collab_control ≡ TaskCollabControl.conflict)
IsHeldBack task (some run) now =
    (task.collab_control ≡ suspended)
    ⊎ (task.collab_control ≡ TaskCollabControl.conflict)
    ⊎ Waits run now

blocked_alone :
    (task : Task) (now : ℕ)
    → (derive_task_blocked task none now ≡ true)
      ↔ ((task.status ≢ TaskStatus.cancelled) × IsHeldBack task none now)
unfolding derive_task_blocked
blocked_alone task now = ground arith

blocked_running :
    (task : Task) (run : AgentRun) (now : ℕ)
    → (derive_task_blocked task (some run) now ≡ true)
      ↔ ((task.status ≢ TaskStatus.cancelled) × IsHeldBack task (some run) now)
unfolding derive_task_blocked
blocked_running task run now = ground (arith, run_blocks_iff run now)

-- A task is blocked exactly when it is not cancelled and is suspended or in conflict, or has a run
-- that waits for a response, for an approval, or for a retry that is not due yet or has no time.
pub task_blocked_iff :
    (task : Task) (run : Option AgentRun) (now : ℕ)
    → (derive_task_blocked task run now ≡ true)
      ↔ ((task.status ≢ TaskStatus.cancelled) × IsHeldBack task run now)
task_blocked_iff task none now = blocked_alone task now
task_blocked_iff task (some run) now = blocked_running task run now

failed_count-le : (xs : List TaskStatus) → failed_count xs ≤ length xs
failed_count-le [] = omega arith
failed_count-le (x ∷ xs) = ground (arith, failed_count-le xs)

failed_count-full :
    (xs : List TaskStatus) → (failed_count xs ≡ length xs) ↔ All (λ s. s ≡ TaskStatus.failed) xs
failed_count-full [] = (λ _. tt, λ _. refl)
failed_count-full (x ∷ xs) = ground (arith, failed_count-full xs, failed_count-le xs)

failed_count-pos : (xs : List TaskStatus) → (0 < failed_count xs) ↔ Memᴰ TaskStatus.failed xs
failed_count-pos [] = (λ h. absurd (omega arith), λ m. absurd (Memᴰ.not-nil m))
failed_count-pos (x ∷ xs) = ground (arith, failed_count-pos xs, Memᴰ-cons TaskStatus.failed x xs)

-- What a feature's derived status says of it and of its frontier tasks.
abbrev pub Meaning : Feature → List TaskStatus → DerivedUnitStatus → Type 0
Meaning f xs DerivedUnitStatus.cancelled = f.collab_control ≡ FeatureCollabControl.cancelled
Meaning f xs DerivedUnitStatus.done =
    (f.work_control ≡ work_complete) × (f.collab_control ≡ FeatureCollabControl.merged)
Meaning f xs DerivedUnitStatus.failed = IsLive f × (xs ≢ []) × All (λ s. s ≡ TaskStatus.failed) xs
Meaning f xs DerivedUnitStatus.partially_failed =
    IsLive f × Memᴰ TaskStatus.failed xs × ¬ All (λ s. s ≡ TaskStatus.failed) xs
Meaning f xs DerivedUnitStatus.in_progress = IsLive f × ¬ Memᴰ TaskStatus.failed xs × ¬ IsIdle f
Meaning f xs DerivedUnitStatus.pending = ¬ Memᴰ TaskStatus.failed xs × IsIdle f

done_iff :
    (f : Feature)
    → (derive_feature_done f ≡ true)
      ↔ ((f.work_control ≡ work_complete) × (f.collab_control ≡ FeatureCollabControl.merged))
unfolding derive_feature_done
done_iff f = ground arith

under_way_iff :
    (f : Feature)
    → (is_under_way f ≡ false) ↔ (
        (f.work_control ≡ work_complete)
        × ((f.collab_control ≡ FeatureCollabControl.none)
            ⊎ (f.collab_control ≡ FeatureCollabControl.cancelled)))
unfolding is_under_way
under_way_iff f = ground arith

-- A feature's derived status is `cancelled` only if its collab control is, and `done` only if it is
-- complete and merged; otherwise `failed` only if it has frontier tasks and all failed,
-- `partially_failed` only if some failed and not all, and `in_progress` or `pending` only if none
-- failed, the last only for a complete feature with no branch.
pub feature_status_means :
    (f : Feature) (xs : List TaskStatus) → Meaning f xs (derive_feature_unit_status f xs)
unfolding derive_feature_unit_status
feature_status_means f xs =
    ground (arith, done_iff f, under_way_iff f, failed_count-full xs, failed_count-pos xs)
