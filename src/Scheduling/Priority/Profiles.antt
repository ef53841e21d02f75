-- ===== src/Scheduling/Priority/Profiles.antt =====
-- What the order of the units of `prioritizeReadyWork` (src/core/scheduling/index.ts) depends on: their
-- features, milestones and tasks.
use vcode.Base.{ℕ, ◌<◌, String, ◌≡◌, ◌↔◌, ◌⊎◌, false, List, Option, none, some, Memᴰ, Ordering}
use vcode.Base.Dict.{get, values}
use vcode.Base.Sort.{is_gt}
use vcode.Types.Workflow.{task_status_eq}
use vcode.Types.Domain.{Milestone, Feature}
use vcode.Graph.Store.{Graph}
use vcode.Scheduling.{SchedulableUnit, GraphMetrics, NodeMetrics}
use vcode.Scheduling.Priority.{max_safe_integer}
use vcode.Scheduling.Priority.Keys.{Placed, work_rank, IsNode, HasFailures, SharesPath}

-- The feature of a unit.
abbrev pub FeatureOf : Graph → SchedulableUnit → Feature → Type 0
FeatureOf g (SchedulableUnit.task t feature_id at) f = get feature_id g.features ≡ some f
FeatureOf g (SchedulableUnit.feature_phase f' phase at) f = f' ≡ f

-- The length of the longest path from a node, zero where it is not known.
abbrev pub Deep : GraphMetrics → String → ℕ → Type 0
Deep metrics node depth =
    ((n : NodeMetrics) × (get node metrics.node_metrics ≡ some n) × (n.max_depth ≡ depth))
    ⊎ ((get node metrics.node_metrics ≡ none) × (depth ≡ 0))

-- What the order of a unit depends on.
pub record Profile (g : Graph) (metrics : GraphMetrics) (u : SchedulableUnit) : Type 0 where
  pub feature : Feature
  pub of : FeatureOf g u feature
  pub position : Option ℕ
  pub placed : Placed (values g.milestones) feature.milestone_id position
  pub node : String
  pub is_node : IsNode u node
  pub depth : ℕ
  pub deep : Deep metrics node depth

abbrev pub time_of : SchedulableUnit → ℕ
time_of (SchedulableUnit.task t feature_id at) = at
time_of (SchedulableUnit.feature_phase f phase at) = at

abbrev pub name_of : SchedulableUnit → String
name_of (SchedulableUnit.task t feature_id at) = t.id
name_of (SchedulableUnit.feature_phase f phase at) = f.id

-- Lower positions first, and no position last.
abbrev pub Sooner : Option ℕ → Option ℕ → Type 0
Sooner none q = ⊥
Sooner (some p) none = Unit
Sooner (some p) (some q) = p < q

-- The first does not hold where the second does, or both or neither do and the rest decides.
abbrev pub Without : Type 0 → Type 0 → Type 0 → Type 0
Without A B rest = ((¬ A) × B) ⊎ ((A ↔ B) × rest)

module _ (locale_compare : String → String → Ordering) where
  -- By the queue position of the milestone, the rank of the work, the longest path, failures, shared
  -- paths, the time since when the unit is ready, and its id.
  abbrev pub Precedes :
      (g : Graph) (metrics : GraphMetrics) (us : List SchedulableUnit) (a b : SchedulableUnit)
      → Profile g metrics a
      → Profile g metrics b
      → Type 0
  Precedes g metrics us a b x y =
      Sooner x.position y.position
      ⊎ ((x.position ≡ y.position)
          × ((work_rank x.feature.work_control < work_rank y.feature.work_control)
              ⊎ ((work_rank x.feature.work_control ≡ work_rank y.feature.work_control)
                  × ((y.depth < x.depth)
                      ⊎ ((y.depth ≡ x.depth)
                          × Without (HasFailures a) (HasFailures b) (
                              Without (SharesPath us a) (SharesPath us b) (
                                (time_of a < time_of b)
                                ⊎ ((time_of a ≡ time_of b)
                                    × (is_gt (locale_compare (name_of a) (name_of b))
                                        ≡ false)))))))))

-- No position is as large as the one that stands for none.
abbrev pub HasSmallPositions : Graph → Type 0
HasSmallPositions g =
    (m : Milestone) (p : ℕ)
    → Memᴰ m (values g.milestones)
    → m.steering_queue_position ≡ some p
    → p < max_safe_integer
