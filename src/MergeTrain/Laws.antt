-- ===== src/MergeTrain/Laws.antt =====
-- What the methods of the coordinator do (src/core/merge-train/index.ts).
use mathlib.Core.List.Memᴰ
use vcode.Base.{
  ℕ, suc, ◌≤◌, ◌≡◌, ◌≢◌, refl, sym, ◌∙◌, subst, inl, inr, arith, String, true, List, [], ◌∷◌,
  Option, none, some, Memᴰ, or_else, ◌==◌, string_eq, Option-cases, Bool-cases, beq_self, beq_of_ne,
  ne_of_beq, eq_of_beq,
}
use vcode.Base.Dict.{Dict, get, set, get-set, Every}
use vcode.Types.Workflow.{
  FeatureId, FeatureCollabControl, awaiting_merge, merge_queued, integrating, feature_collab_eq,
  work_control_eq,
}
use vcode.Types.Domain.{Feature}
use vcode.Fsm.Laws.{Step}
use vcode.Graph.Store.{Graph}
use vcode.Graph.Transitions.{
  MergeTrainUpdate, transition_feature, update_merge_train_state, triple_of, proposed_triple,
  with_triple, with_merge_train, absent, to_value,
}
use vcode.MergeTrain.{
  MergeTrainCoordinator, Call, returned, then_with, to_collab, find_unmerged, is_merged,
  enter_queue, enqueue_feature_merge,
}

-- The map holds each feature under its id.
abbrev pub IsKeyed : Dict Feature → Type 0
IsKeyed = Every (λ k f. f.id ≡ k)

-- At most one feature is integrating.
abbrev pub OneIntegrating : Dict Feature → Type 0
OneIntegrating m =
    (j k : String) (f h : Feature)
    → get j m ≡ some f
    → get k m ≡ some h
    → f.collab_control ≡ integrating
    → h.collab_control ≡ integrating
    → j ≡ k

-- Every queued feature has an entry number that the coordinator has given out.
abbrev pub SeqBounded : MergeTrainCoordinator → Dict Feature → Type 0
SeqBounded train = Every (λ _ f. or_else f.merge_train_entry_seq 0 ≤ train.entry_seq)

find_unmerged-none :
    (m : Dict Feature) (deps : List FeatureId)
    → find_unmerged m deps ≡ none
    → (d : FeatureId) → Memᴰ d deps
    → (f : Feature) × (get d m ≡ some f) × (f.collab_control ≡ FeatureCollabControl.merged)
unfolding find_unmerged
find_unmerged-none m [] e d k = absurd (Memᴰ.not-nil k)
find_unmerged-none m (x ∷ xs) e d k = elim (Bool-cases (is_merged (get x m))) [
  | inr pending ↦ cc (rw pending at e)
  | inl merged ↦ elim (Memᴰ.cases_cons k) [
    | inl same ↦ rw same (found (get x m) merged)
    | inr later ↦ find_unmerged-none m xs (rw merged at e) d later
  ]
]
  where
    found :
        (o : Option Feature)
        → is_merged o ≡ true
        → (f : Feature) × (o ≡ some f) × (f.collab_control ≡ FeatureCollabControl.merged)
    found none h = cc
    found (some f) h = (f, refl, (feature_collab_eq.equal_iff _ _).0 h)

-- The feature after a move of its collab control and an update of its merge-train fields.
abbrev pub moved : Feature → FeatureCollabControl → MergeTrainUpdate → Feature
moved f c u = with_merge_train (with_triple f (proposed_triple f (to_collab c))) u

-- The two writes of `enqueue`, `completeIntegration` and `ejectFromQueue`.
abbrev pub move_and_update :
    MergeTrainCoordinator → Graph → FeatureId → FeatureCollabControl → MergeTrainUpdate → Call
move_and_update train g id c u =
    then_with train g (transition_feature g id (to_collab c))
      λ g1. then_with train g1 (update_merge_train_state g1 id u) (returned train)

-- What such a call leaves: the feature moved, by a step that the guard allows, and all else as it was.
pub record Moves (g g' : Graph) (id : FeatureId) (c : FeatureCollabControl) (u : MergeTrainUpdate)
    (f : Feature) : Type 0 where
  pub was : get id g.features ≡ some f
  pub allowed : Step (triple_of f) (proposed_triple f (to_collab c))
  pub now_is : get id g'.features ≡ some (moved f c u)
  pub others : (k : FeatureId) → k ≢ id → get k g'.features ≡ get k g.features

pub some_injective : {A : Type 0} {a b : A} → some a ≡ some b → a ≡ b
some_injective h = cc

writes :
    (train train' : MergeTrainCoordinator) (g g' : Graph) (id : FeatureId)
    (c : FeatureCollabControl) (u : MergeTrainUpdate)
    → move_and_update train g id c u ≡ returned train' g'
    → (f : Feature) × (get id g.features ≡ some f)
      × Step (triple_of f) (proposed_triple f (to_collab c))
      × (train' ≡ train)
      × (g'.features
          ≡ set id
              (moved f c u)
              (set id (with_triple f (proposed_triple f (to_collab c))) g.features))
unfolding transition_feature update_merge_train_state
writes train train' g g' id c u e = elim (Option-cases (get id g.features)) [
  | inl missing ↦ ground arith
  | inr (f, found) ↦
      let first = with_triple f (proposed_triple f (to_collab c)) in
      let fact = get-set id id first g.features in
      let refl_id = beq_self id in (f, ground arith, ground arith, ground arith, ground arith)
]

Moves-of :
    (g g' : Graph) (id : FeatureId) (c : FeatureCollabControl) (u : MergeTrainUpdate) (f : Feature)
    → get id g.features ≡ some f
    → Step (triple_of f) (proposed_triple f (to_collab c))
    → g'.features
      ≡ set id (moved f c u) (set id (with_triple f (proposed_triple f (to_collab c))) g.features)
    → Moves g g' id c u f
Moves-of g g' id c u f was allowed final = record {
  was = was;
  allowed = allowed;
  now_is = rw final (rw (get-set, beq_self id));
  others = λ k ne.
      let other = beq_of_ne id k (λ q. ne (sym q)) in
      rw final (rw (get-set, other) (rw (get-set, other)));
}

pub move_and_update-Moves :
    (train train' : MergeTrainCoordinator) (g g' : Graph) (id : FeatureId)
    (c : FeatureCollabControl) (u : MergeTrainUpdate)
    → move_and_update train g id c u ≡ returned train' g'
    → (train' ≡ train) × ((f : Feature) × Moves g g' id c u f)
move_and_update-Moves train train' g g' id c u e =
    let (f, was, allowed, same, final) = writes train train' g g' id c u e in
    (same, (f, Moves-of g g' id c u f was allowed final))

pub Moves-Every :
    (P : String → Feature → Type 0) (g g' : Graph) (id : FeatureId) (c : FeatureCollabControl)
    (u : MergeTrainUpdate) (f : Feature)
    → Moves g g' id c u f
    → Every P g.features
    → P id (moved f c u)
    → Every P g'.features
Moves-Every P g g' id c u f moves all new k x e = elim (Bool-cases (k == id)) [
  | inl same ↦
      let at : k ≡ id = eq_of_beq k id same in
      let is : moved f c u ≡ x =
        some_injective (sym moves.now_is ∙ subst (λ j. get j g'.features ≡ some x) at e) in
      subst (P k) is (subst (λ j. P j (moved f c u)) (sym at) new)
  | inr other ↦ all k x (sym (moves.others k (ne_of_beq k id other)) ∙ e)
]

-- What `enqueueFeatureMerge` writes to the merge-train fields.
abbrev pub entry_update : MergeTrainCoordinator → ℕ → Feature → MergeTrainUpdate
entry_update train now f = record {
  manual_position = absent;
  entered_at = to_value now;
  entry_seq = to_value (suc train.entry_seq);
  reentry_count = to_value (or_else f.merge_train_reentry_count 0);
}

-- What a call of `enqueueFeatureMerge` that returns has done.
pub record Enqueued (train train' : MergeTrainCoordinator) (g g' : Graph) (now : ℕ) (id : FeatureId)
    (f : Feature) : Type 0 where
  pub moves : Moves g g' id merge_queued (entry_update train now f) f
  pub waits : f.work_control ≡ awaiting_merge
  pub counted : train'.entry_seq ≡ suc train.entry_seq
  pub deps :
      (d : FeatureId)
      → Memᴰ d f.depends_on
      → (x : Feature) × (get d g.features ≡ some x)
        × (x.collab_control ≡ FeatureCollabControl.merged)

Enqueued-of :
    (train train' : MergeTrainCoordinator) (g g' : Graph) (now : ℕ) (id : FeatureId) (f : Feature)
    → get id g.features ≡ some f
    → f.work_control ≡ awaiting_merge
    → find_unmerged g.features f.depends_on ≡ none
    → enter_queue train g now id f ≡ returned train' g'
    → Enqueued train train' g g' now id f
unfolding enter_queue
Enqueued-of train train' g g' now id f was waits free e =
    let (same, (f', m)) =
      move_and_update-Moves (record train { entry_seq = suc train.entry_seq }) train' g g' id
        merge_queued (entry_update train now f) e in
    let is : f' ≡ f = some_injective (sym m.was ∙ was) in
    record {
      moves = subst (Moves g g' id merge_queued (entry_update train now f)) is m;
      waits = waits;
      counted = rw same refl;
      deps = find_unmerged-none g.features f.depends_on free;
    }

enqueue_guards :
    (train train' : MergeTrainCoordinator) (g g' : Graph) (now : ℕ) (id : FeatureId)
    → enqueue_feature_merge train g now id ≡ returned train' g'
    → (f : Feature) × (get id g.features ≡ some f)
      × ((f.work_control == awaiting_merge) ≡ true)
      × (find_unmerged g.features f.depends_on ≡ none)
      × (enter_queue train g now id f ≡ returned train' g')
unfolding enqueue_feature_merge
enqueue_guards train train' g g' now id e = elim (Option-cases (get id g.features)) [
  | inl missing ↦ ground arith
  | inr (f, was) ↦ (f, was, ground arith, ground arith, ground arith)
]

-- A call of `enqueueFeatureMerge` that returns has queued a feature which was waiting for its merge
-- and whose dependencies are all merged, by a step that the guards allow, with the next entry
-- number; every other feature stays as it was.
pub enqueue-Enqueued :
    (train train' : MergeTrainCoordinator) (g g' : Graph) (now : ℕ) (id : FeatureId)
    → enqueue_feature_merge train g now id ≡ returned train' g'
    → (f : Feature) × Enqueued train train' g g' now id f
enqueue-Enqueued train train' g g' now id e =
    let (f, was, waits, free, entered) = enqueue_guards train train' g g' now id e in
    (f, Enqueued-of train train' g g' now id f was (eq_of_beq _ _ waits) free entered)
