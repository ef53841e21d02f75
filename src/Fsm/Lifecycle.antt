-- ===== src/Fsm/Lifecycle.antt =====
-- The life of a feature under the composite guard of src/core/fsm/index.ts: an invariant of the
-- states that runs reach, and the states that are final.
use vcode.Base.{◌≡◌, ◌≢◌, ◌⊎◌, inl, inr, ⊎_elim, arith, ◌∙◌}
use vcode.Types.Workflow.{
  UnitStatus, FeatureWorkControl, FeatureCollabControl, discussing, researching, awaiting_merge,
  summarizing, work_complete,
}
use vcode.Fsm.Relation.{
  WorkMove, CollabMove, to_research, to_plan, to_execute, to_check, to_verify, to_merge, to_summary,
  skip_summary, to_complete, repair, replan, reexecute, while_executing, while_checking,
  while_verifying, while_merging, open_branch, enqueue, dequeue, requeue, cancel,
}
use vcode.Fsm.Feature.{FeatureStateTriple, expected_status}
use vcode.Fsm.Laws.{Step, Reach, here, next, initial, Step-parts, WorkPart, Step-changes}

-- `early`: no branch before planning. `opened`: nothing waits for its merge without a branch.
-- `summarized` and `completed`: the last two phases stand behind a merge.
pub record IsSound (w : FeatureWorkControl) (s : UnitStatus) (c : FeatureCollabControl)
    : Type 0 where
  pub early :
      (w ≡ discussing) ⊎ (w ≡ researching)
      → (c ≡ FeatureCollabControl.none) ⊎ (c ≡ FeatureCollabControl.cancelled)
  pub opened : w ≡ awaiting_merge → c ≢ FeatureCollabControl.none
  pub summarized : w ≡ summarizing → c ≡ FeatureCollabControl.merged
  pub completed : w ≡ work_complete → (c ≡ FeatureCollabControl.merged) × (s ≡ UnitStatus.done)

abbrev pub TripleIsSound : FeatureStateTriple → Type 0
TripleIsSound t = IsSound t.work_control t.status t.collab_control

work-IsSound :
    {w w' : FeatureWorkControl} {s : UnitStatus} {c : FeatureCollabControl}
    → WorkMove s c w w'
    → IsSound w s c
    → IsSound w' (expected_status w') c
work-IsSound (to_research h) v = ground arith
work-IsSound (to_plan h) v = ground arith
work-IsSound (to_execute h) v = ground arith
work-IsSound (to_check h) v = ground arith
work-IsSound (to_verify h) v = ground arith
work-IsSound (to_merge e k) v = ground arith
work-IsSound (to_summary e k) v = ground arith
work-IsSound (skip_summary e k) v = ground arith
work-IsSound (to_complete h) v = ground arith
work-IsSound (repair r e k) v = ground arith
work-IsSound (replan e k) v = ground arith
work-IsSound (reexecute e k) v = ground arith

collab-IsSound :
    {w : FeatureWorkControl} {s : UnitStatus} {c c' : FeatureCollabControl}
    → CollabMove w c c'
    → IsSound w s c
    → IsSound w s c'
collab-IsSound (open_branch h) v = ground arith
collab-IsSound (enqueue h) v = ground arith
collab-IsSound (dequeue h) v = ground arith
collab-IsSound (requeue h) v = ground arith
collab-IsSound (cancel h k) v = ground arith
collab-IsSound _ v = ground arith

status-IsSound :
    {w : FeatureWorkControl} {s s' : UnitStatus} {c : FeatureCollabControl}
    → w ≢ work_complete
    → IsSound w s c
    → IsSound w s' c
status-IsSound h v = ground arith

after_work :
    (t u : FeatureStateTriple)
    → WorkPart t u
    → TripleIsSound t
    → IsSound u.work_control u.status t.collab_control
after_work t u (inl (m, e)) v = rw e (work-IsSound m v)
after_work t u (inr (e, inl k)) v = rw (e, k) v
after_work t u (inr (e, inr (m, h, _))) v = rw e (status-IsSound h v)

Step-IsSound : (t u : FeatureStateTriple) → Step t u → TripleIsSound t → TripleIsSound u
Step-IsSound t u h v =
    let (work, collab) = Step-parts t u h in
    let mid = after_work t u work v in
    elim collab [ inl e ↦ rw e mid | inr m ↦ collab-IsSound m mid ]

-- Every state that a new feature reaches by allowed steps is sound: in the first two phases it has
-- no branch (or is cancelled), it never waits for its merge without a branch, and in `summarizing`
-- and `work_complete` it is merged, with status `done` in the latter.
pub Reach-IsSound : (t : FeatureStateTriple) → Reach initial t → TripleIsSound t
Reach-IsSound t here = ground arith
Reach-IsSound t (next {u} r h) = Step-IsSound u t h (Reach-IsSound u r)

no_work_from_complete :
    {s : UnitStatus} {c : FeatureCollabControl} {w w' : FeatureWorkControl}
    → WorkMove s c w w'
    → w ≢ work_complete
no_work_from_complete (to_research h) = λ e. cc
no_work_from_complete (repair while_executing e k) = λ e. cc
no_work_from_complete (repair while_checking e k) = λ e. cc
no_work_from_complete (repair while_verifying e k) = λ e. cc
no_work_from_complete (repair while_merging e k) = λ e. cc
no_work_from_complete _ = λ e. cc

no_collab_from_final :
    {w : FeatureWorkControl} {c c' : FeatureCollabControl}
    → CollabMove w c c'
    → (c ≢ FeatureCollabControl.merged) × (c ≢ FeatureCollabControl.cancelled)
no_collab_from_final (cancel h k) = (h, k)
no_collab_from_final (open_branch h) = (λ e. cc, λ e. cc)
no_collab_from_final _ = (λ e. cc, λ e. cc)

-- A feature that has completed its work by allowed steps allows no step at all.
pub complete_final :
    (t u : FeatureStateTriple) → Reach initial t → t.work_control ≡ work_complete → ¬ Step t u
complete_final t u r e h =
    let (work, collab) = Step-parts t u h in
    let merged = ((Reach-IsSound t r).completed e).0 in
    elim work [
      | inl (m, _) ↦ no_work_from_complete m e
      | inr (same, inl k) ↦ elim collab [
        | inl q ↦ Step-changes t u h same k q
        | inr m ↦ (no_collab_from_final m).0 merged
      ]
      | inr (same, inr (_, ne, _)) ↦ ne e
    ]

no_work_when_cancelled :
    {s : UnitStatus} {c : FeatureCollabControl} {w w' : FeatureWorkControl}
    → WorkMove s c w w'
    → c ≢ FeatureCollabControl.cancelled
no_work_when_cancelled (to_research h) = h.live
no_work_when_cancelled (to_plan h) = h.live
no_work_when_cancelled (to_execute h) = h.live
no_work_when_cancelled (to_check h) = h.live
no_work_when_cancelled (to_verify h) = h.live
no_work_when_cancelled (to_complete h) = h.live
no_work_when_cancelled (to_merge e k) = ground arith
no_work_when_cancelled (to_summary e k) = ground arith
no_work_when_cancelled (skip_summary e k) = ground arith
no_work_when_cancelled (repair r e k) = k
no_work_when_cancelled (replan e k) = k
no_work_when_cancelled (reexecute e k) = k

-- From a cancelled feature every allowed step keeps both controls and sets the status `cancelled`.
pub cancelled_stays :
    (t u : FeatureStateTriple)
    → Step t u
    → t.collab_control ≡ FeatureCollabControl.cancelled
    → (u.work_control ≡ t.work_control)
      × (u.collab_control ≡ FeatureCollabControl.cancelled)
      × (u.status ≡ UnitStatus.cancelled)
cancelled_stays t u h e =
    let (work, collab) = Step-parts t u h in
    let kept : u.collab_control ≡ t.collab_control = elim collab [
      | inl q ↦ q
      | inr m ↦ absurd ((no_collab_from_final m).1 e)
    ] in
    elim work [
      | inl (m, _) ↦ absurd (no_work_when_cancelled m e)
      | inr (same, inl k) ↦ absurd (Step-changes t u h same k kept)
      | inr (same, inr (_, _, cancels)) ↦
          (same, kept ∙ e, ⊎_elim (λ live. absurd (live e)) (λ done. done) cancels)
    ]
