-- ===== src/MergeTrain/Invariant.antt =====
-- The invariant of the merge train (src/core/merge-train/index.ts), and the calls that keep it.
use vcode.Base.{
  ℕ, suc, ◌≤◌, ◌≡◌, ◌≢◌, refl, sym, ap, ◌∙◌, subst, inl, inr, arith, String, [], ◌∷◌, none, some,
  or_else, ◌==◌, string_eq, Option-cases, Bool-cases, ne_of_beq, eq_of_beq, beq_of_ne, eq_iff,
}
use vcode.Base.Dict.{Dict, get, set, values, Every-set, get-set}
use vcode.Base.Results.{ok}
use vcode.Types.Workflow.{
  FeatureId, FeatureCollabControl, merge_queued, integrating, branch_open, feature_collab_eq,
}
use vcode.Types.Domain.{Feature}
use vcode.Graph.Store.{Graph}
use vcode.Graph.Transitions.{
  FieldUpdate, MergeTrainUpdate, transition_feature, proposed_triple, with_triple, absent, clear,
  to_value,
}
use vcode.Graph.Transitions.Laws.{feature-eq-ok}
use vcode.MergeTrain.{
  MergeTrainCoordinator, returned, to_collab, enqueue_feature_merge, find_integrating,
  begin_integration, complete_integration, eject_from_queue,
}
use vcode.MergeTrain.Laws.{
  IsKeyed, OneIntegrating, SeqBounded, Moves, moved, Moves-Every, move_and_update, some_injective,
  move_and_update-Moves, entry_update, enqueue-Enqueued,
}

-- The map holds each feature under its id, at most one feature is integrating, and no feature has an
-- entry number that the coordinator has not given out.
pub record TrainIsSound (train : MergeTrainCoordinator) (m : Dict Feature) : Type 0 where
  pub keyed : IsKeyed m
  pub one_integrating : OneIntegrating m
  pub seq_bounded : SeqBounded train m

-- A call of one of the four methods, by what it leaves.
pub data TrainStep (train train' : MergeTrainCoordinator) (g g' : Graph) (id : FeatureId)
    : Type 0 where
  enqueued :
      (now : ℕ)
      → enqueue_feature_merge train g now id ≡ returned train' g'
      → TrainStep train train' g g' id
  begun : begin_integration train g id ≡ returned train' g' → TrainStep train train' g g' id
  completed : complete_integration train g id ≡ returned train' g' → TrainStep train train' g g' id
  ejected : eject_from_queue train g id ≡ returned train' g' → TrainStep train train' g g' id

-- The update that leaves the queue.
abbrev pub leave_update : FieldUpdate → MergeTrainUpdate
leave_update count = record {
  manual_position = clear;
  entered_at = clear;
  entry_seq = clear;
  reentry_count = count;
}

complete_guards :
    (train train' : MergeTrainCoordinator) (g g' : Graph) (id : FeatureId)
    → complete_integration train g id ≡ returned train' g'
    → move_and_update train g id FeatureCollabControl.merged (leave_update absent)
      ≡ returned train' g'
unfolding complete_integration
complete_guards train train' g g' id e = ground arith

-- The writes of `completeIntegration`.
pub complete-Moves :
    (train train' : MergeTrainCoordinator) (g g' : Graph) (id : FeatureId)
    → complete_integration train g id ≡ returned train' g'
    → (train' ≡ train)
      × ((f : Feature) × Moves g g' id FeatureCollabControl.merged (leave_update absent) f)
complete-Moves train train' g g' id e =
    move_and_update-Moves train train' g g' id _ (leave_update absent)
      (complete_guards train train' g g' id e)

-- The update of `ejectFromQueue`.
abbrev pub eject_update : Feature → MergeTrainUpdate
eject_update f = leave_update (to_value (suc (or_else f.merge_train_reentry_count 0)))

eject_guards :
    (train train' : MergeTrainCoordinator) (g g' : Graph) (id : FeatureId)
    → eject_from_queue train g id ≡ returned train' g'
    → (f : Feature) × (get id g.features ≡ some f)
      × (move_and_update train g id branch_open (eject_update f) ≡ returned train' g')
unfolding eject_from_queue
eject_guards train train' g g' id e = elim (Option-cases (get id g.features)) [
  | inl missing ↦ ground arith
  | inr (f, was) ↦ (f, was, ground arith)
]

-- The writes of `ejectFromQueue`.
pub eject-Moves :
    (train train' : MergeTrainCoordinator) (g g' : Graph) (id : FeatureId)
    → eject_from_queue train g id ≡ returned train' g'
    → (train' ≡ train) × ((f : Feature) × Moves g g' id branch_open (eject_update f) f)
eject-Moves train train' g g' id e =
    let (f, was, guarded) = eject_guards train train' g g' id e in
    let (same, (f', m)) =
      move_and_update-Moves train train' g g' id branch_open (eject_update f) guarded in
    let is : f' ≡ f = some_injective (sym m.was ∙ was) in
    (same, (f, subst (Moves g g' id branch_open (eject_update f)) is m))

Moves-OneIntegrating :
    (g g' : Graph) (id : FeatureId) (c : FeatureCollabControl) (u : MergeTrainUpdate) (f : Feature)
    → Moves g g' id c u f
    → c ≢ integrating
    → OneIntegrating g.features
    → OneIntegrating g'.features
Moves-OneIntegrating g g' id c u f moves ne one j k a b at_j at_k is_a is_b =
    one j k a b (before j a at_j is_a) (before k b at_k is_b) is_a is_b
  where
    before :
        (i : String) (x : Feature)
        → get i g'.features ≡ some x
        → x.collab_control ≡ integrating
        → get i g.features ≡ some x
    before i x at is = elim (Bool-cases (i == id)) [
      | inl same ↦
          let here : get i g'.features ≡ some (moved f c u) =
            rw (eq_of_beq i id same) moves.now_is in
          absurd (ne (collab_of_eq x (some_injective (sym here ∙ at)) is))
      | inr other ↦ sym (moves.others i (ne_of_beq i id other)) ∙ at
    ]
      where
        collab_of_eq :
            (x : Feature) → moved f c u ≡ x → x.collab_control ≡ integrating → c ≡ integrating
        collab_of_eq x e is = cc

find_integrating-none :
    (id : FeatureId) (m : Dict Feature)
    → find_integrating id (values m) ≡ none
    → (k : String) (f : Feature) → get k m ≡ some f
    → f.collab_control ≡ integrating
    → f.id ≡ id
unfolding find_integrating values get
find_integrating-none id [] e k f at is = cc
find_integrating-none id ((j, x) ∷ m) e k f at is =
    let rest : find_integrating id (values m) ≡ none → get k m ≡ some f → f.id ≡ id =
      λ free later. find_integrating-none id m free k f later is in
    ground (arith, eq_iff x.id id, eq_iff j k)

begin-eq-ok :
    (train train' : MergeTrainCoordinator) (g g' : Graph) (id : FeatureId)
    → begin_integration train g id ≡ returned train' g'
    → (find_integrating id (values g.features) ≡ none)
      × (train' ≡ train)
      × (transition_feature g id (to_collab integrating) ≡ ok g')
unfolding begin_integration
begin-eq-ok train train' g g' id e = ground arith

begin-OneIntegrating :
    (train train' : MergeTrainCoordinator) (g g' : Graph) (id : FeatureId)
    → IsKeyed g.features
    → begin_integration train g id ≡ returned train' g'
    → OneIntegrating g'.features
begin-OneIntegrating train train' g g' id keyed e j k a b at_j at_k is_a is_b =
    only j a at_j is_a ∙ sym (only k b at_k is_b)
  where
    only :
        (i : String) (x : Feature)
        → get i g'.features ≡ some x
        → x.collab_control ≡ integrating
        → i ≡ id
    only i x at is = elim (Bool-cases (i == id)) [
      | inl same ↦ eq_of_beq i id same
      | inr other ↦
          let (free, _, moved_on) = begin-eq-ok train train' g g' id e in
          let (f, _, _, final) = feature-eq-ok g g' id (to_collab integrating) moved_on in
          let apart = beq_of_ne id i (λ q. ne_of_beq i id other (sym q)) in
          let at' : get i g.features ≡ some x = sym (rw final (rw (get-set, apart) refl)) ∙ at in
          sym (keyed i x at') ∙ find_integrating-none id g.features free i x at' is
    ]

module _ {train train' : MergeTrainCoordinator} {g g' : Graph} {id : FeatureId} where
  move-IsSound :
      (c : FeatureCollabControl) (u : MergeTrainUpdate) (f : Feature)
      → Moves g g' id c u f
      → c ≢ integrating
      → train.entry_seq ≤ train'.entry_seq
      → or_else (moved f c u).merge_train_entry_seq 0 ≤ train'.entry_seq
      → TrainIsSound train g.features
      → TrainIsSound train' g'.features
  move-IsSound c u f m ne grows bound sound = record {
    keyed = Moves-Every _ g g' id c u f m sound.keyed (sound.keyed id f m.was);
    one_integrating = Moves-OneIntegrating g g' id c u f m ne sound.one_integrating;
    seq_bounded =
        Moves-Every _ g g' id c u f m (λ k x at. omega (arith, sound.seq_bounded k x at)) bound;
  }

begin-IsSound :
    (train train' : MergeTrainCoordinator) (g g' : Graph) (id : FeatureId)
    → TrainIsSound train g.features
    → begin_integration train g id ≡ returned train' g'
    → TrainIsSound train' g'.features
begin-IsSound train train' g g' id sound e =
    let (_, same, moved_on) = begin-eq-ok train train' g g' id e in
    let (f, was, _, final) = feature-eq-ok g g' id (to_collab integrating) moved_on in
    let x = with_triple f (proposed_triple f (to_collab integrating)) in
    let final' : g'.features ≡ set id x g.features = ap (λ k. k.features) final in
    let whole : TrainIsSound train (set id x g.features) = record {
      keyed = Every-set _ id x g.features sound.keyed (sound.keyed id f was);
      one_integrating =
          subst OneIntegrating final' (begin-OneIntegrating train train' g g' id sound.keyed e);
      seq_bounded = Every-set _ id x g.features sound.seq_bounded (sound.seq_bounded id f was);
    } in
    subst (λ t. TrainIsSound t g'.features) (sym same)
      (subst (TrainIsSound train) (sym final') whole)

-- Each of the four methods of the coordinator, where it returns, keeps the merge train sound: each
-- feature under its id, at most one feature integrating, and no entry number above the counter.
pub TrainStep-IsSound :
    (train train' : MergeTrainCoordinator) (g g' : Graph) (id : FeatureId)
    → TrainIsSound train g.features
    → TrainStep train train' g g' id
    → TrainIsSound train' g'.features
TrainStep-IsSound train train' g g' id sound (enqueued now e) =
    let (f, call) = enqueue-Enqueued train train' g g' now id e in
    let counted = call.counted in
    move-IsSound merge_queued (entry_update train now f) f call.moves (λ q. cc) (omega arith)
      (omega arith) sound
TrainStep-IsSound train train' g g' id sound (begun e) = begin-IsSound train train' g g' id sound e
TrainStep-IsSound train train' g g' id sound (completed e) =
    let (same, (f, m)) = complete-Moves train train' g g' id e in
    move-IsSound FeatureCollabControl.merged (leave_update absent) f m (λ q. cc)
      (rw same (omega arith)) (omega arith) sound
TrainStep-IsSound train train' g g' id sound (ejected e) =
    let (same, (f, m)) = eject-Moves train train' g g' id e in
    move-IsSound branch_open (eject_update f) f m (λ q. cc) (rw same (omega arith)) (omega arith)
      sound
