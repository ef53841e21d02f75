-- ===== src/Examples/Lifecycle.antt =====
-- The guards of src/core/fsm/index.ts on concrete states, and a whole life of a feature and a task.
use vcode.Base.{◌≡◌, refl, ◌↔◌, inl, List, [], ◌∷◌}
use vcode.Types.Workflow.{
  UnitStatus, FeatureWorkControl, FeatureCollabControl, TaskStatus, TaskCollabControl, discussing,
  researching, planning, executing, ci_check, verifying, awaiting_merge, replanning, work_complete,
  branch_open, merge_queued, integrating, ready, running, suspended,
}
use vcode.Fsm.Table.{valid}
use vcode.Fsm.Feature.{
  FeatureStateTriple, validate_feature_work_transition, validate_feature_status_transition,
  validate_feature_collab_transition, validate_feature_transition,
}
use vcode.Fsm.Task.{
  TaskStatePair, validate_task_status_transition, validate_task_collab_transition,
  validate_task_transition,
}
use vcode.Fsm.Relation.{WorkMove, CollabMove, work_iff, collab_iff}
use vcode.Fsm.Laws.{Step, Reach, here, next, initial}
use vcode.Fsm.Lifecycle.{TripleIsSound, Reach-IsSound, complete_final}
use vcode.Fsm.TaskLaws
use vcode.Fsm.TaskLaws.{
  TaskMove, TaskCollabMove, TaskStep, TaskReach, TaskParts, task_status_iff, task_collab_iff,
  task_iff,
}
use vcode.Fsm.TaskLifecycle.{merged_done, task_final, suspended_waits}

work_iff_example :
    (validate_feature_work_transition verifying awaiting_merge UnitStatus.done branch_open ≡ valid)
    ↔ WorkMove UnitStatus.done branch_open verifying awaiting_merge
work_iff_example = work_iff verifying awaiting_merge UnitStatus.done branch_open

collab_iff_example :
    (validate_feature_collab_transition merge_queued integrating awaiting_merge UnitStatus.pending
      ≡ valid)
    ↔ CollabMove awaiting_merge merge_queued integrating
collab_iff_example = collab_iff merge_queued integrating awaiting_merge UnitStatus.pending

abbrev at : FeatureWorkControl → UnitStatus → FeatureCollabControl → FeatureStateTriple
at w s c = record { work_control = w; status = s; collab_control = c }

abbrev Run : FeatureStateTriple → List FeatureStateTriple → Type 0
Run t [] = Unit
Run t (u ∷ us) = Step t u × Run u us

abbrev last_of : FeatureStateTriple → List FeatureStateTriple → FeatureStateTriple
last_of t [] = t
last_of t (u ∷ us) = last_of u us

Reach-last :
    (t u : FeatureStateTriple) (us : List FeatureStateTriple)
    → Reach t u
    → Run u us
    → Reach t (last_of u us)
Reach-last t u [] r run = r
Reach-last t u (v ∷ us) r (h, run) = Reach-last t v us (next r h) run

-- The states of a feature from its creation to its completion.
abbrev whole_life : List FeatureStateTriple
whole_life =
    at discussing UnitStatus.in_progress FeatureCollabControl.none
    ∷ at discussing UnitStatus.done FeatureCollabControl.none
    ∷ at researching UnitStatus.pending FeatureCollabControl.none
    ∷ at researching UnitStatus.in_progress FeatureCollabControl.none
    ∷ at researching UnitStatus.done FeatureCollabControl.none
    ∷ at planning UnitStatus.pending FeatureCollabControl.none
    ∷ at planning UnitStatus.in_progress FeatureCollabControl.none
    ∷ at planning UnitStatus.done FeatureCollabControl.none
    ∷ at executing UnitStatus.pending FeatureCollabControl.none
    ∷ at executing UnitStatus.pending branch_open
    ∷ at executing UnitStatus.in_progress branch_open
    ∷ at executing UnitStatus.done branch_open
    ∷ at ci_check UnitStatus.pending branch_open
    ∷ at ci_check UnitStatus.in_progress branch_open
    ∷ at ci_check UnitStatus.done branch_open
    ∷ at verifying UnitStatus.pending branch_open
    ∷ at verifying UnitStatus.in_progress branch_open
    ∷ at verifying UnitStatus.done branch_open
    ∷ at awaiting_merge UnitStatus.pending branch_open
    ∷ at awaiting_merge UnitStatus.pending merge_queued
    ∷ at awaiting_merge UnitStatus.pending integrating
    ∷ at awaiting_merge UnitStatus.pending FeatureCollabControl.merged
    ∷ at awaiting_merge UnitStatus.in_progress FeatureCollabControl.merged
    ∷ at awaiting_merge UnitStatus.done FeatureCollabControl.merged
    ∷ at work_complete UnitStatus.done FeatureCollabControl.merged
    ∷ []

whole_life-Run : Run initial whole_life
unfolding validate_feature_transition validate_feature_work_transition
    validate_feature_status_transition validate_feature_collab_transition
whole_life-Run = (
  refl,
  (
    refl,
    (
      refl,
      (
        refl,
        (
          refl,
          (
            refl,
            (
              refl,
              (
                refl,
                (
                  refl,
                  (
                    refl,
                    (
                      refl,
                      (
                        refl,
                        (
                          refl,
                          (
                            refl,
                            (
                              refl,
                              (
                                refl,
                                (
                                  refl,
                                  (
                                    refl,
                                    (refl, (refl, (refl, (refl, (refl, (refl, (refl, tt))))))),
                                  ),
                                ),
                              ),
                            ),
                          ),
                        ),
                      ),
                    ),
                  ),
                ),
              ),
            ),
          ),
        ),
      ),
    ),
  ),
)

abbrev completed : FeatureStateTriple
completed = at work_complete UnitStatus.done FeatureCollabControl.merged

completed_reached : Reach initial completed
completed_reached = Reach-last initial initial whole_life here whole_life-Run

Reach-IsSound_example : TripleIsSound completed
Reach-IsSound_example = Reach-IsSound completed completed_reached

complete_final_example :
    ¬ Step completed (at replanning UnitStatus.pending FeatureCollabControl.merged)
complete_final_example =
    complete_final completed (at replanning UnitStatus.pending FeatureCollabControl.merged)
      completed_reached refl

abbrev stopped : FeatureStateTriple
stopped = at executing UnitStatus.in_progress FeatureCollabControl.cancelled

abbrev stopped_after : FeatureStateTriple
stopped_after = at executing UnitStatus.cancelled FeatureCollabControl.cancelled

stopped-Step : Step stopped stopped_after
unfolding validate_feature_transition validate_feature_status_transition
stopped-Step = refl

abbrev branch : TaskCollabControl
branch = TaskCollabControl.branch_open

abbrev pair : TaskStatus → TaskCollabControl → TaskStatePair
pair s c = record { status = s; collab_control = c }

task_iff_example : TaskStep (pair ready branch) (pair running branch) ↔ (
    TaskParts (pair ready branch) (pair running branch) × ¬ ((running ≡ ready) × (branch ≡ branch)))
task_iff_example = task_iff (pair ready branch) (pair running branch)

-- The states of a task from its creation to its merge.
abbrev task_life : List TaskStatePair
task_life =
    pair ready TaskCollabControl.none
    ∷ pair ready branch
    ∷ pair running branch
    ∷ pair TaskStatus.done branch
    ∷ pair TaskStatus.done TaskCollabControl.merged
    ∷ []

abbrev TaskRun : TaskStatePair → List TaskStatePair → Type 0
TaskRun t [] = Unit
TaskRun t (u ∷ us) = TaskStep t u × TaskRun u us

abbrev last_task : TaskStatePair → List TaskStatePair → TaskStatePair
last_task t [] = t
last_task t (u ∷ us) = last_task u us

reach_last_task :
    (t u : TaskStatePair) (us : List TaskStatePair)
    → TaskReach t u
    → TaskRun u us
    → TaskReach t (last_task u us)
reach_last_task t u [] r run = r
reach_last_task t u (v ∷ us) r (h, run) = reach_last_task t v us (TaskLaws.next r h) run

task_life_run : TaskRun TaskLaws.initial task_life
unfolding validate_task_transition validate_task_status_transition validate_task_collab_transition
task_life_run = (refl, (refl, (refl, (refl, (refl, tt)))))

merged_task_reached : TaskReach TaskLaws.initial (pair TaskStatus.done TaskCollabControl.merged)
merged_task_reached =
    reach_last_task TaskLaws.initial TaskLaws.initial task_life TaskLaws.here task_life_run

merged_done_example : TaskStatus.done ≡ TaskStatus.done
merged_done_example =
    merged_done (pair TaskStatus.done TaskCollabControl.merged) merged_task_reached refl

task_final_example :
    ¬ TaskStep
      (pair TaskStatus.cancelled branch)
      (pair TaskStatus.cancelled TaskCollabControl.merged)
task_final_example =
    task_final (pair TaskStatus.cancelled branch)
      (pair TaskStatus.cancelled TaskCollabControl.merged) (inl refl)

resumed : TaskStep (pair running suspended) (pair running branch)
unfolding validate_task_transition validate_task_collab_transition
resumed = refl

suspended_waits_example : running ≡ running
suspended_waits_example =
    suspended_waits (pair running suspended) (pair running branch) resumed refl refl
