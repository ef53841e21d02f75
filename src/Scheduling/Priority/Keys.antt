-- ===== src/Scheduling/Priority/Keys.antt =====
-- What the keys of the comparator of `prioritizeReadyWork` (src/core/scheduling/index.ts) mean for the
-- units that it collects.
use mathlib.Core.List.Memᴰ
use Prim.Native.String.{◌++◌ as ◌++ˢ◌}
use vcode.Base.{
  ℕ, zero, suc, ◌<◌, String, ◌≡◌, ◌≢◌, refl, sym, ap, ◌∙◌, ◌⊎◌, inl, inr, arith, List, [], ◌∷◌,
  Option, none, some, Memᴰ, Bool-cases, string_eq, ◌==◌, eq_of_beq, ne_of_beq, includes_iff,
  includes, length,
}
use vcode.Base.Dict.{Dict, get, set, get-set}
use vcode.Types.Workflow.{
  FeatureWorkControl, discussing, researching, planning, executing, ci_check, verifying,
  awaiting_merge, summarizing, work_complete, replanning,
}
use vcode.Types.Domain.{Milestone}
use vcode.Scheduling.{SchedulableUnit, PhaseCategory, feature_phase_category, unit_to_node_id}
use vcode.Scheduling.Priority.{
  queue_positions, unit_failed, unit_overlap, Ranking, overlapping_task_ids,
}
use vcode.Scheduling.Priority.Claims.{claimants, mem-overlapping_task_ids}

-- A queue position of the milestone; none if no milestone of this id has one.
abbrev pub Placed : List Milestone → String → Option ℕ → Type 0
Placed ms id (some p) =
    (m : Milestone) × Memᴰ m ms × (m.id ≡ id) × (m.steering_queue_position ≡ some p)
Placed ms id none = (m : Milestone) → Memᴰ m ms → m.id ≡ id → m.steering_queue_position ≡ none

-- The same, or what the map had before.
abbrev PlacedOr : List Milestone → String → Option ℕ → Option ℕ → Type 0
PlacedOr ms id old (some p) = Placed ms id (some p) ⊎ (old ≡ some p)
PlacedOr ms id old none = Placed ms id none × (old ≡ none)

PlacedOr-cons :
    (m : Milestone) (ms : List Milestone) (id : String) (old now : Option ℕ) (o : Option ℕ)
    → (((m.id ≡ id) × (m.steering_queue_position ≢ none) × (now ≡ m.steering_queue_position))
        ⊎ (((m.id ≢ id) ⊎ (m.steering_queue_position ≡ none)) × (now ≡ old)))
    → PlacedOr ms id now o
    → PlacedOr (m ∷ ms) id old o
PlacedOr-cons m ms id old now (some p) w (inl (x, k, i, e)) = inl (x, Memᴰ.tail k, i, e)
PlacedOr-cons m ms id old now (some p) (inl (i, _, is)) (inr e) =
    inl (m, Memᴰ.head refl, i, sym is ∙ e)
PlacedOr-cons m ms id old now (some p) (inr (_, is)) (inr e) = inr (sym is ∙ e)
PlacedOr-cons m ms id old now none (inl (_, there, is)) (all, e) = absurd (there (sym is ∙ e))
PlacedOr-cons m ms id old now none (inr (apart, is)) (all, e) = (
  λ x k i. elim (Memᴰ.cases_cons k) [
    | inl same ↦ elim apart [
      | inl ne ↦ absurd (ne (ap (λ y. y.id) (sym same) ∙ i))
      | inr gone ↦ ap (λ y. y.steering_queue_position) same ∙ gone
    ]
    | inr later ↦ all x later i
  ],
  sym is ∙ e,
)

after_set :
    (m : Milestone) (id : String) (acc : Dict ℕ) (p : ℕ)
    → m.steering_queue_position ≡ some p
    → (((m.id ≡ id)
          × (m.steering_queue_position ≢ none)
          × (get id (set m.id p acc) ≡ m.steering_queue_position))
        ⊎ (((m.id ≢ id) ⊎ (m.steering_queue_position ≡ none))
            × (get id (set m.id p acc) ≡ get id acc)))
after_set m id acc p e = elim (Bool-cases (m.id == id)) [
  | inl same ↦
      let read : get id (set m.id p acc) ≡ some p = get-set m.id id p acc ∙ rw same refl in
      inl (eq_of_beq m.id id same, (λ gone. cc), read ∙ sym e)
  | inr other ↦ inr (inl (ne_of_beq m.id id other), get-set m.id id p acc ∙ rw other refl)
]

queue_positions-PlacedOr :
    (ms : List Milestone) (id : String) (acc : Dict ℕ)
    → PlacedOr ms id (get id acc) (get id (queue_positions ms acc))
unfolding queue_positions
queue_positions-PlacedOr [] id acc = start (get id acc)
  where
    start : (o : Option ℕ) → PlacedOr [] id o o
    start (some p) = inr refl
    start none = (λ x k i. absurd (Memᴰ.not-nil k), refl)
queue_positions-PlacedOr (m ∷ ms) id acc =
    by m.steering_queue_position refl (λ a. queue_positions-PlacedOr ms id a)
  where
    by :
        (o : Option ℕ)
        → m.steering_queue_position ≡ o
        → ((a : Dict ℕ) → PlacedOr ms id (get id a) (get id (queue_positions ms a)))
        → PlacedOr (m ∷ ms) id (get id acc) (
            get id (elim o [
              | none ↦ queue_positions ms acc
              | some p ↦ queue_positions ms (set m.id p acc)
            ]))
    by none e rest =
        PlacedOr-cons m ms id (get id acc) (get id acc) _ (inr (inr e, refl)) (rest acc)
    by (some p) e rest =
        PlacedOr-cons m ms id (get id acc) (get id (set m.id p acc)) _ (after_set m id acc p e)
          (rest (set m.id p acc))

pub queue_positions-Placed :
    (ms : List Milestone) (id : String) → Placed ms id (get id (queue_positions ms []))
unfolding get
queue_positions-Placed ms id =
    of (get id (queue_positions ms [])) (queue_positions-PlacedOr ms id [])
  where
    of : (o : Option ℕ) → PlacedOr ms id none o → Placed ms id o
    of (some p) (inl at) = at
    of (some p) (inr e) = cc
    of none (at, _) = at

-- Work that is closer to a feature's end first: checks, then the tasks, then plans, then what follows the
-- merge.
abbrev pub work_rank : FeatureWorkControl → ℕ
work_rank ci_check = 0
work_rank verifying = 0
work_rank executing = 1
work_rank discussing = 2
work_rank researching = 2
work_rank planning = 2
work_rank replanning = 2
work_rank awaiting_merge = 3
work_rank summarizing = 3
work_rank work_complete = 3

-- The tasks of a feature before the checks are one node, and what follows them is another.
abbrev pub IsAfterTasks : FeatureWorkControl → Type 0
IsAfterTasks w = (w ≡ ci_check) ⊎ (w ≡ verifying) ⊎ (w ≡ summarizing) ⊎ (w ≡ awaiting_merge)

-- The node of the unit in the combined graph.
abbrev pub IsNode : SchedulableUnit → String → Type 0
IsNode (SchedulableUnit.task t feature_id at) node = node ≡ "task:" ++ˢ feature_id ++ˢ ":" ++ˢ t.id
IsNode (SchedulableUnit.feature_phase f phase at) node =
    (IsAfterTasks f.work_control × (node ≡ "virtual:" ++ˢ f.id ++ˢ ":post"))
    ⊎ ((¬ IsAfterTasks f.work_control) × (node ≡ "virtual:" ++ˢ f.id))

-- A task that has failed at least once since it last worked.
abbrev pub HasFailures : SchedulableUnit → Type 0
HasFailures (SchedulableUnit.task t feature_id at) =
    (n : ℕ) × (t.consecutive_failures ≡ some (suc n))
HasFailures (SchedulableUnit.feature_phase f phase at) = ⊥

-- A task whose id is among those that reserve a path together.
abbrev pub SharesPath : List SchedulableUnit → SchedulableUnit → Type 0
SharesPath us (SchedulableUnit.task t feature_id at) =
    (p : String) × Memᴰ t.id (claimants p us) × (1 < length (claimants p us))
SharesPath us (SchedulableUnit.feature_phase f phase at) = ⊥

-- 1 where it holds, and 0 where not.
abbrev pub Bit : ℕ → Type 0 → Type 0
Bit n P = ((n ≡ 1) × P) ⊎ ((n ≡ 0) × ¬ P)

pub unit_failed-Bit : (u : SchedulableUnit) → Bit (unit_failed u) (HasFailures u)
unit_failed-Bit (SchedulableUnit.feature_phase f phase at) = inr (refl, λ no. no)
unit_failed-Bit (SchedulableUnit.task t feature_id at) = of t.consecutive_failures refl
  where
    of :
        (o : Option ℕ)
        → t.consecutive_failures ≡ o
        → Bit
            (unit_failed (SchedulableUnit.task t feature_id at))
            (HasFailures (SchedulableUnit.task t feature_id at))
    of none e = rw e (inr (refl, λ (n, h). cc))
    of (some zero) e = rw e (inr (refl, λ (n, h). ground (arith, h)))
    of (some (suc n)) e = rw e (inl (ground arith, (n, refl)))

pub unit_overlap-Bit :
    (r : Ranking) (us : List SchedulableUnit) (u : SchedulableUnit)
    → r.overlaps ≡ overlapping_task_ids us
    → Bit (unit_overlap r u) (SharesPath us u)
unit_overlap-Bit r us (SchedulableUnit.feature_phase f phase at) same = inr (refl, λ no. no)
unit_overlap-Bit r us (SchedulableUnit.task t feature_id at) same =
    let found = includes_iff t.id (overlapping_task_ids us) in
    let means = mem-overlapping_task_ids t.id us in
    elim (Bool-cases (includes t.id (overlapping_task_ids us))) [
      | inl hit ↦ rw (same, hit) (inl (refl, means.0 (found.0 hit)))
      | inr miss ↦ rw (same, miss) (inr (refl, λ p. let h = found.1 (means.1 p) in cc))
    ]

abbrev phase_node : FeatureWorkControl → String → String
phase_node w id = elim (feature_phase_category w) [
  | PhaseCategory.post ↦ "virtual:" ++ˢ id ++ˢ ":post"
  | _ ↦ "virtual:" ++ˢ id
]

phase_node-is :
    (w : FeatureWorkControl) (id : String)
    → (IsAfterTasks w × (phase_node w id ≡ "virtual:" ++ˢ id ++ˢ ":post"))
      ⊎ ((¬ IsAfterTasks w) × (phase_node w id ≡ "virtual:" ++ˢ id))
unfolding includes
phase_node-is discussing id = inr (λ h. ground arith, refl)
phase_node-is researching id = inr (λ h. ground arith, refl)
phase_node-is planning id = inr (λ h. ground arith, refl)
phase_node-is replanning id = inr (λ h. ground arith, refl)
phase_node-is executing id = inr (λ h. ground arith, refl)
phase_node-is work_complete id = inr (λ h. ground arith, refl)
phase_node-is ci_check id = inl (inl refl, refl)
phase_node-is verifying id = inl (inr (inl refl), refl)
phase_node-is summarizing id = inl (inr (inr (inl refl)), refl)
phase_node-is awaiting_merge id = inl (inr (inr (inr refl)), refl)

pub unit_to_node_id-IsNode : (u : SchedulableUnit) → IsNode u (unit_to_node_id u)
unit_to_node_id-IsNode (SchedulableUnit.task t feature_id at) = refl
unit_to_node_id-IsNode (SchedulableUnit.feature_phase f phase at) =
    phase_node-is f.work_control f.id
