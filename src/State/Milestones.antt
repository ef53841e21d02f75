-- ===== src/State/Milestones.antt =====
-- The derived status of a milestone (src/core/state/index.ts).
use mathlib.Core.List.Memᴰ
use vcode.Base.{
  ◌≡◌, ◌≢◌, refl, ◌↔◌, ◌⊎◌, inl, arith, true, List, [], ◌∷◌, All, all, Memᴰ, includes_iff, ◌==◌,
}
use vcode.Types.Workflow.{
  DerivedUnitStatus, pending, in_progress, done, failed, cancelled, partially_failed,
  derived_status_eq,
}
use vcode.State.{derive_milestone_unit_status}

-- Every entry is `s`.
abbrev pub Only : DerivedUnitStatus → List DerivedUnitStatus → Type 0
Only s = All (λ a. a ≡ s)

Only-iff :
    (s : DerivedUnitStatus) (xs : List DerivedUnitStatus)
    → (all (λ a. a == s) xs ≡ true) ↔ Only s xs
Only-iff s [] = (λ h. tt, λ h. refl)
Only-iff s (x ∷ xs) = ground (arith, Only-iff s xs, derived_status_eq.equal_iff x s)

abbrev pub Meaning : List DerivedUnitStatus → DerivedUnitStatus → Type 0
Meaning xs done = (xs ≢ []) × Only done xs
Meaning xs cancelled = (xs ≢ []) × Only cancelled xs
Meaning xs partially_failed = Memᴰ partially_failed xs ⊎ (Memᴰ failed xs × Memᴰ in_progress xs)
Meaning xs failed = Memᴰ failed xs × ¬ Memᴰ in_progress xs × ¬ Memᴰ partially_failed xs
Meaning xs in_progress = Memᴰ in_progress xs × ¬ Memᴰ failed xs × ¬ Memᴰ partially_failed xs
Meaning xs pending =
    ¬ Memᴰ in_progress xs
    × ¬ Memᴰ failed xs
    × ¬ Memᴰ partially_failed xs
    × ((xs ≡ []) ⊎ (¬ Only done xs × ¬ Only cancelled xs))

-- A milestone's derived status is `done` or `cancelled` only if it has features and all are;
-- `partially_failed` only if some feature is, or one failed while another is in progress; `failed`
-- only if one failed and none is partially failed or in progress; `in_progress` only if one is and
-- none failed in part or whole; and `pending` only if none of these holds.
pub milestone_status_means :
    (xs : List DerivedUnitStatus) → Meaning xs (derive_milestone_unit_status xs)
unfolding derive_milestone_unit_status
milestone_status_means [] =
    (λ m. Memᴰ.not-nil m, λ m. Memᴰ.not-nil m, λ m. Memᴰ.not-nil m, inl refl)
milestone_status_means (x ∷ rest) =
    let xs = x ∷ rest in
    ground (
      arith,
      Only-iff done xs,
      Only-iff cancelled xs,
      includes_iff in_progress xs,
      includes_iff partially_failed xs,
      includes_iff failed xs,
    )
