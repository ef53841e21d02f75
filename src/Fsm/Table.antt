-- ===== src/Fsm/Table.antt =====
-- The result of a guard, and the lookup in a table of allowed successors.
use vcode.Base.{
  ◌≡◌, refl, ◌⊎◌, inl, inr, Bool, true, false, List, [], ◌∷◌, StrictEq, ◌==◌, if◌then◌else◌,
  includes,
}
use vcode.Types.Workflow.{
  UnitStatus, FeatureWorkControl, FeatureCollabControl, TaskStatus, TaskCollabControl,
}

-- The texts that a guard gives as its reason, with what they quote.
pub data Reason : Type 0 where
  no_op_work : FeatureWorkControl → FeatureWorkControl → Reason
  work_when_cancelled : Reason
  advance_during_conflict : Reason
  awaiting_merge_requires_branch_open : Reason
  summarizing_requires_merged : Reason
  work_complete_requires_merged : Reason
  illegal_work : FeatureWorkControl → UnitStatus → FeatureWorkControl → Reason
  no_op_status : UnitStatus → Reason
  only_cancelled_status : Reason
  work_complete_status : Reason
  illegal_status : UnitStatus → UnitStatus → Reason
  no_op_collab : FeatureCollabControl → Reason
  branch_open_requires_executing : Reason
  merge_queued_requires_awaiting_merge : Reason
  conflict_to_merge_queued_requires_awaiting_merge : Reason
  merge_queued_to_branch_open_requires_awaiting_merge : Reason
  illegal_collab : FeatureCollabControl → FeatureCollabControl → Reason
  nothing_changed : Reason
  status_must_be : UnitStatus → FeatureWorkControl → UnitStatus → Reason
  no_op_task_status : TaskStatus → Reason
  running_while_suspended : Reason
  illegal_task_status : TaskStatus → TaskStatus → Reason
  no_op_task_collab : TaskCollabControl → Reason
  collab_on_cancelled_task : Reason
  suspend_not_running : Reason
  merge_not_done : Reason
  illegal_task_collab : TaskCollabControl → TaskCollabControl → Reason

pub data TransitionResult : Type 0 where
  valid : TransitionResult
  invalid : Reason → TransitionResult

-- `if (!result.valid) return result;` before the rest.
infixl 5 ◌>>◌
abbrev pub ◌>>◌ : TransitionResult → TransitionResult → TransitionResult
valid >> k = k
invalid r >> k = invalid r

-- `if (b) return { valid: false, reason };`
abbrev pub reject_if : Bool → Reason → TransitionResult
reject_if true r = invalid r
reject_if false r = valid

-- `if (b) { … }` around checks, which falls through when they pass.
abbrev pub when : Bool → TransitionResult → TransitionResult
when true checks = checks
when false checks = valid

module _ {A : Type 0} ⦃e : StrictEq A⦄ where
  -- `TABLE.get(current)?.has(proposed)`
  unfoldable pub allows : List (A × List A) → A → A → Bool
  unfolding includes
  allows [] current proposed = false
  allows ((a, nexts) ∷ table) current proposed =
      let rest = allows table current proposed in
      if a == current then includes proposed nexts else rest

-- What a chain of checks that passes says of its parts.
pub >>-eq-valid : (m k : TransitionResult) → (m >> k) ≡ valid → (m ≡ valid) × (k ≡ valid)
>>-eq-valid valid k h = (refl, h)
>>-eq-valid (invalid r) k h = cc

pub when-eq-valid : (b : Bool) (m : TransitionResult) → when b m ≡ valid → (b ≡ false) ⊎ (m ≡ valid)
when-eq-valid true m h = inr h
when-eq-valid false m h = inl refl

pub reject_if-eq-valid : (b : Bool) (r : Reason) → reject_if b r ≡ valid → b ≡ false
reject_if-eq-valid true r h = cc
reject_if-eq-valid false r h = refl
