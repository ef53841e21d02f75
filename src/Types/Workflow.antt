-- ===== src/Types/Workflow.antt =====
-- src/core/types/workflow.ts: the status and control enumerations, with `===` on each. Identifiers
-- are plain texts, whose prefixes the graph checks where the code does.
use vcode.Base.{ℕ, ◌≡◌, ◌↔◌, arith, StrictEq, nat_beq, String, true}

pub data UnitStatus : Type 0 where
  pending in_progress done failed cancelled : UnitStatus

-- `UnitStatus` extended by the derived-only value.
pub data DerivedUnitStatus : Type 0 where
  pending in_progress done failed cancelled partially_failed : DerivedUnitStatus

pub data FeatureWorkControl : Type 0 where
  discussing researching planning executing ci_check verifying awaiting_merge summarizing replanning
        work_complete :
      FeatureWorkControl

pub data FeatureCollabControl : Type 0 where
  none branch_open merge_queued integrating merged conflict cancelled : FeatureCollabControl

pub data TaskStatus : Type 0 where
  pending ready running stuck done failed cancelled : TaskStatus

pub data TaskCollabControl : Type 0 where
  none branch_open suspended merged conflict : TaskCollabControl

pub data TestPolicy : Type 0 where
  loose strict : TestPolicy

pub data TaskWeight : Type 0 where
  trivial small medium heavy : TaskWeight

pub data TaskSuspendReason : Type 0 where
  same_feature_overlap cross_feature_overlap : TaskSuspendReason

abbrev pub MilestoneId : Type 0
MilestoneId = String

abbrev pub FeatureId : Type 0
FeatureId = String

abbrev pub TaskId : Type 0
TaskId = String

abbrev pub unit_status_tag : UnitStatus → ℕ
unit_status_tag UnitStatus.pending = 0
unit_status_tag UnitStatus.in_progress = 1
unit_status_tag UnitStatus.done = 2
unit_status_tag UnitStatus.failed = 3
unit_status_tag UnitStatus.cancelled = 4

pub unit_status_beq_iff :
    (a b : UnitStatus) → (nat_beq (unit_status_tag a) (unit_status_tag b) ≡ true) ↔ (a ≡ b)
unit_status_beq_iff a b = ground arith

instance abbrev pub unit_status_eq : StrictEq UnitStatus
unit_status_eq = record {
  equal = λ a b. nat_beq (unit_status_tag a) (unit_status_tag b);
  equal_iff = unit_status_beq_iff;
}

abbrev pub derived_status_tag : DerivedUnitStatus → ℕ
derived_status_tag DerivedUnitStatus.pending = 0
derived_status_tag DerivedUnitStatus.in_progress = 1
derived_status_tag DerivedUnitStatus.done = 2
derived_status_tag DerivedUnitStatus.failed = 3
derived_status_tag DerivedUnitStatus.cancelled = 4
derived_status_tag DerivedUnitStatus.partially_failed = 5

pub derived_status_beq_iff :
    (a b : DerivedUnitStatus)
    → (nat_beq (derived_status_tag a) (derived_status_tag b) ≡ true) ↔ (a ≡ b)
derived_status_beq_iff a b = ground arith

instance abbrev pub derived_status_eq : StrictEq DerivedUnitStatus
derived_status_eq = record {
  equal = λ a b. nat_beq (derived_status_tag a) (derived_status_tag b);
  equal_iff = derived_status_beq_iff;
}

abbrev pub work_control_tag : FeatureWorkControl → ℕ
work_control_tag FeatureWorkControl.discussing = 0
work_control_tag FeatureWorkControl.researching = 1
work_control_tag FeatureWorkControl.planning = 2
work_control_tag FeatureWorkControl.executing = 3
work_control_tag FeatureWorkControl.ci_check = 4
work_control_tag FeatureWorkControl.verifying = 5
work_control_tag FeatureWorkControl.awaiting_merge = 6
work_control_tag FeatureWorkControl.summarizing = 7
work_control_tag FeatureWorkControl.replanning = 8
work_control_tag FeatureWorkControl.work_complete = 9

pub work_control_beq_iff :
    (a b : FeatureWorkControl)
    → (nat_beq (work_control_tag a) (work_control_tag b) ≡ true) ↔ (a ≡ b)
work_control_beq_iff a b = ground arith

instance abbrev pub work_control_eq : StrictEq FeatureWorkControl
work_control_eq = record {
  equal = λ a b. nat_beq (work_control_tag a) (work_control_tag b);
  equal_iff = work_control_beq_iff;
}

abbrev pub feature_collab_tag : FeatureCollabControl → ℕ
feature_collab_tag FeatureCollabControl.none = 0
feature_collab_tag FeatureCollabControl.branch_open = 1
feature_collab_tag FeatureCollabControl.merge_queued = 2
feature_collab_tag FeatureCollabControl.integrating = 3
feature_collab_tag FeatureCollabControl.merged = 4
feature_collab_tag FeatureCollabControl.conflict = 5
feature_collab_tag FeatureCollabControl.cancelled = 6

pub feature_collab_beq_iff :
    (a b : FeatureCollabControl)
    → (nat_beq (feature_collab_tag a) (feature_collab_tag b) ≡ true) ↔ (a ≡ b)
feature_collab_beq_iff a b = ground arith

instance abbrev pub feature_collab_eq : StrictEq FeatureCollabControl
feature_collab_eq = record {
  equal = λ a b. nat_beq (feature_collab_tag a) (feature_collab_tag b);
  equal_iff = feature_collab_beq_iff;
}

abbrev pub task_status_tag : TaskStatus → ℕ
task_status_tag TaskStatus.pending = 0
task_status_tag TaskStatus.ready = 1
task_status_tag TaskStatus.running = 2
task_status_tag TaskStatus.stuck = 3
task_status_tag TaskStatus.done = 4
task_status_tag TaskStatus.failed = 5
task_status_tag TaskStatus.cancelled = 6

pub task_status_beq_iff :
    (a b : TaskStatus) → (nat_beq (task_status_tag a) (task_status_tag b) ≡ true) ↔ (a ≡ b)
task_status_beq_iff a b = ground arith

instance abbrev pub task_status_eq : StrictEq TaskStatus
task_status_eq = record {
  equal = λ a b. nat_beq (task_status_tag a) (task_status_tag b);
  equal_iff = task_status_beq_iff;
}

abbrev pub task_collab_tag : TaskCollabControl → ℕ
task_collab_tag TaskCollabControl.none = 0
task_collab_tag TaskCollabControl.branch_open = 1
task_collab_tag TaskCollabControl.suspended = 2
task_collab_tag TaskCollabControl.merged = 3
task_collab_tag TaskCollabControl.conflict = 4

pub task_collab_beq_iff :
    (a b : TaskCollabControl) → (nat_beq (task_collab_tag a) (task_collab_tag b) ≡ true) ↔ (a ≡ b)
task_collab_beq_iff a b = ground arith

instance abbrev pub task_collab_eq : StrictEq TaskCollabControl
task_collab_eq = record {
  equal = λ a b. nat_beq (task_collab_tag a) (task_collab_tag b);
  equal_iff = task_collab_beq_iff;
}
