-- ===== src/Graph/Features/Cancel/Fuel.antt =====
-- The cascade of a cancellation ends: each nested call cancels a feature that was not cancelled.
use vcode.Base.{
  ℕ, zero, suc, ◌+◌, ◌≤◌, ◌<◌, String, ◌≡◌, refl, arith, true, false, List, [], ◌∷◌, Option, some,
  ◌==◌, string_eq, Bool-cases, Option-cases, if◌then◌else◌, length, inl, inr,
}
use vcode.Base.Dict.{Dict, get, set}
use vcode.Base.Results.{ok}
use vcode.Types.Workflow.{FeatureCollabControl, FeatureId, feature_collab_eq}
use vcode.Types.Domain.{Feature}
use vcode.Graph.Search.{nexts}
use vcode.Graph.Store.{Graph}
use vcode.Graph.Features.{
  cancelled_feature, mark_cancelled, cascade_over, cancel_cascade, cancel_feature, cancel_fuel,
}
use vcode.Graph.Features.Cancel.{Cancelled, cascade-Cancels}

live_count : Dict Feature → ℕ
live_count [] = 0
live_count ((k, f) ∷ m) =
    (if f.collab_control == FeatureCollabControl.cancelled then 0 else 1) + live_count m

live_count-le : (m : Dict Feature) → live_count m ≤ length m
unfolding live_count
live_count-le [] = omega arith
live_count-le ((k, f) ∷ m) = ground (arith, live_count-le m)

live_count-set :
    (id : String) (f : Feature) (m : Dict Feature)
    → get id m ≡ some f
    → live_count (set id (cancelled_feature f) m)
        + (if f.collab_control == FeatureCollabControl.cancelled then 0 else 1)
      ≡ live_count m
unfolding live_count get set
live_count-set id f [] at = cc
live_count-set id f ((k, x) ∷ m) at = elim (Bool-cases (k == id)) [
  | inl same ↦ ground arith
  | inr other ↦ ground (arith, live_count-set id f m)
]

-- A call that is given enough fuel returns, and leaves no more live features than there were.
abbrev Ends : Option Graph → ℕ → Type 0
Ends o n = (h : Graph) × (o ≡ some h) × (live_count h.features ≤ n)

cascade_over-Ends :
    (n : ℕ) (visit : Graph → FeatureId → Feature → Option Graph)
    → ((g : Graph) (id : FeatureId) (f : Feature)
        → get id g.features ≡ some f
        → (f.collab_control == FeatureCollabControl.cancelled) ≡ false
        → live_count g.features ≤ n
        → Ends (visit g id f) (live_count g.features))
    → (ids : List FeatureId) (g : Graph) → live_count g.features ≤ n
    → Ends (cascade_over visit ids g) (live_count g.features)
unfolding cascade_over
cascade_over-Ends n visit ends [] g fits = (g, refl, omega arith)
cascade_over-Ends n visit ends (id ∷ ids) g fits = elim (Option-cases (get id g.features)) [
  | inl missing ↦
      let (h, e, le) = cascade_over-Ends n visit ends ids g fits in (h, ground arith, le)
  | inr (f, at) ↦ elim (Bool-cases (f.collab_control == FeatureCollabControl.cancelled)) [
    | inl dead ↦ let (h, e, le) = cascade_over-Ends n visit ends ids g fits in (h, ground arith, le)
    | inr live ↦
        let (g1, visited, fewer) = ends g id f at live fits in
        let (h, e, le) = cascade_over-Ends n visit ends ids g1 (omega arith) in
        (h, ground arith, omega arith)
  ]
]

cascade-Ends :
    (fuel : ℕ) (g : Graph) (id : FeatureId) (f : Feature)
    → get id g.features ≡ some f
    → live_count (mark_cancelled id f g).features < fuel
    → Ends (cancel_cascade fuel g id f) (live_count (mark_cancelled id f g).features)
unfolding cancel_cascade mark_cancelled
cascade-Ends zero g id f at h = absurd (omega arith)
cascade-Ends (suc fuel) g id f at h =
    cascade_over-Ends fuel (cancel_cascade fuel)
      (λ g' id' f' at' live fits.
        let less = live_count-set id' f' g'.features at' in
        let (k, e, le) = cascade-Ends fuel g' id' f' at' (ground arith) in (k, e, ground arith))
      (nexts id g.feature_successors) (mark_cancelled id f g) (omega arith)

-- Cancelling a feature that is there, with its cascade, always comes to an end within the fuel, and:
-- the feature is cancelled; every other feature that is cancelled on the way is reached from it in
-- the successor index; no successor of a feature that is cancelled on the way is left uncancelled;
-- nothing else changes in the features, and the successor index stays.
pub cancel_cascade-Cancelled :
    (g : Graph) (id : FeatureId) (f : Feature)
    → get id g.features ≡ some f
    → (h : Graph) × (cancel_feature g id true ≡ ok h) × Cancelled id g h
unfolding cancel_feature mark_cancelled
cancel_cascade-Cancelled g id f at =
    let less = live_count-set id f g.features at in
    let most = live_count-le g.features in
    let (h, e, _) = cascade-Ends (cancel_fuel g) g id f at (ground arith) in
    (h, ground arith, cascade-Cancels (cancel_fuel g) g h id f at e)
