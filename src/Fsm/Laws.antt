-- ===== src/Fsm/Laws.antt =====
-- What runs of the composite guard keep, from the state in which a feature starts
-- (src/core/fsm/index.ts, `validateFeatureTransition`).
use vcode.Base.{
  ◌≡◌, ◌≢◌, sym, ◌⊎◌, inl, inr, Bool, Bool-cases, ◌==◌, true, eq_of_beq, eq_of_not_bne, beq_of_eq,
  ◌!=◌, not, ◌&&◌,
}
use vcode.Types.Workflow.{
  UnitStatus, FeatureCollabControl, discussing, work_complete, work_control_eq, unit_status_eq,
  feature_collab_eq,
}
use vcode.Fsm.Table.{Reason, valid, ◌>>◌, reject_if, when, >>-eq-valid, reject_if-eq-valid}
use vcode.Fsm.Relation.{WorkMove, CollabMove, StatusMove, work_iff, collab_iff, status_iff}
use vcode.Fsm.Feature.{
  FeatureStateTriple, expected_status, validate_feature_work_transition,
  validate_feature_status_transition, validate_feature_collab_transition,
  validate_feature_transition,
}

abbrev pub Step : FeatureStateTriple → FeatureStateTriple → Type 0
Step t u = validate_feature_transition t u ≡ valid

pub data Reach (t : FeatureStateTriple) : FeatureStateTriple → Type 0 where
  here : Reach t t
  next : {u v : FeatureStateTriple} → Reach t u → Step u v → Reach t v

-- The state in which `createFeature` makes a feature.
abbrev pub initial : FeatureStateTriple
initial = record {
  work_control = discussing;
  status = UnitStatus.pending;
  collab_control = FeatureCollabControl.none;
}

-- What a step does to the work control and the status, and to the collab control.
abbrev pub WorkPart : FeatureStateTriple → FeatureStateTriple → Type 0
WorkPart t u =
    (WorkMove t.status t.collab_control t.work_control u.work_control
      × (u.status ≡ expected_status u.work_control))
    ⊎ ((u.work_control ≡ t.work_control)
        × ((u.status ≡ t.status)
            ⊎ (StatusMove t.status u.status
                × (t.work_control ≢ work_complete)
                × ((t.collab_control ≢ FeatureCollabControl.cancelled)
                    ⊎ (u.status ≡ UnitStatus.cancelled)))))

abbrev pub CollabPart : FeatureStateTriple → FeatureStateTriple → Type 0
CollabPart t u =
    (u.collab_control ≡ t.collab_control)
    ⊎ CollabMove u.work_control t.collab_control u.collab_control

-- The parts of the composite guard, for a step that it allows.
work_part :
    (t u : FeatureStateTriple)
    → when (t.work_control != u.work_control) (do
      validate_feature_work_transition t.work_control u.work_control t.status t.collab_control
      reject_if
          (u.status != expected_status u.work_control)
          (Reason.status_must_be (expected_status u.work_control) u.work_control u.status))
      ≡ valid
    → when
        (t.status != u.status && not (t.work_control != u.work_control))
        (validate_feature_status_transition t.status u.status t.work_control t.collab_control)
      ≡ valid
    → WorkPart t u
work_part t u h k = elim (Bool-cases (t.work_control == u.work_control)) [
  | inl same ↦ inr (
    sym (eq_of_beq _ _ same),
    elim (Bool-cases (t.status == u.status)) [
      | inl still ↦ inl (sym (eq_of_beq _ _ still))
      | inr other ↦ inr ((status_iff _ _ _ _).0 (rw (same, other) at k))
    ],
  )
  | inr moved ↦
      let (work, reset) = >>-eq-valid _ _ (rw moved at h) in
      inl ((work_iff _ _ _ _).0 work, eq_of_not_bne _ _ (reject_if-eq-valid _ _ reset))
]

collab_part :
    (t u : FeatureStateTriple)
    → when (t.collab_control != u.collab_control) (
        validate_feature_collab_transition t.collab_control u.collab_control u.work_control
          u.status)
      ≡ valid
    → CollabPart t u
collab_part t u h = elim (Bool-cases (t.collab_control == u.collab_control)) [
  | inl same ↦ inl (sym (eq_of_beq _ _ same))
  | inr moved ↦ inr ((collab_iff _ _ _ _).0 (rw moved at h))
]

pub Step-parts : (t u : FeatureStateTriple) → Step t u → WorkPart t u × CollabPart t u
unfolding validate_feature_transition
Step-parts t u h =
    let (changed, h1) = >>-eq-valid _ _ h in
    let (work, h2) = >>-eq-valid _ _ h1 in
    let (status, h3) = >>-eq-valid _ _ h2 in
    let (collab, _) = >>-eq-valid _ _ h3 in (work_part t u work status, collab_part t u collab)

unchanged :
    {a b c : Bool}
    → a ≡ true
    → b ≡ true
    → c ≡ true
    → ¬ (reject_if (not (not a) && not (not b) && not (not c)) Reason.nothing_changed ≡ valid)
unchanged p q r h = cc (rw (p, q, r) at h)

-- A step changes something.
pub Step-changes :
    (t u : FeatureStateTriple)
    → Step t u
    → u.work_control ≡ t.work_control
    → u.status ≡ t.status
    → u.collab_control ≢ t.collab_control
unfolding validate_feature_transition
Step-changes t u h p q r =
    let (changed, _) = >>-eq-valid _ _ h in
    unchanged (beq_of_eq (sym p)) (beq_of_eq (sym q)) (beq_of_eq (sym r)) changed
