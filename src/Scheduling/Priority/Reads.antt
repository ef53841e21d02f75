-- ===== src/Scheduling/Priority/Reads.antt =====
-- What the comparator of `prioritizeReadyWork` (src/core/scheduling/index.ts) reads of a unit.
use vcode.Base.{
  ℕ, String, ◌≡◌, refl, sym, subst, ◌⊎◌, inl, inr, arith, List, [], Option, some, or_else, Ordering,
  Option-cases,
}
use vcode.Base.Dict.{Dict, get, values}
use vcode.Types.Workflow.{
  FeatureWorkControl, discussing, researching, planning, executing, ci_check, verifying,
  awaiting_merge, summarizing, work_complete, replanning, ready, task_status_eq,
}
use vcode.Types.Domain.{Feature, Task}
use vcode.Types.Runs.{AgentRunPhase}
use vcode.Graph.Store.{Graph}
use vcode.Scheduling.{
  SchedulableUnit, GraphMetrics, work_control_to_tier, work_type_tier_of, work_type_tier_priority,
  unit_to_node_id,
}
use vcode.Scheduling.Priority.{
  ExecutionRunReader, Ranking, unit_position, unit_tier, unit_depth, unit_fresh, ranking_of,
  max_safe_integer, queue_positions, depth_of,
}
use vcode.Scheduling.Priority.Due.{
  PhaseOf, discussion, research, plan, replan, check, verification, summary, DueTask, DueFeature,
}
use vcode.Scheduling.Priority.Keys.{queue_positions-Placed, work_rank, unit_to_node_id-IsNode}
use vcode.Scheduling.Priority.Profiles.{FeatureOf, Deep, Profile}

-- What the comparator reads of a unit is what its profile says.
pub record IsRead (r : Ranking) (g : Graph) (metrics : GraphMetrics) (u : SchedulableUnit)
    (x : Profile g metrics u) : Type 0 where
  pub position_is : unit_position r u ≡ or_else x.position max_safe_integer
  pub tier_is : unit_tier r u ≡ work_rank x.feature.work_control
  pub depth_is : unit_depth r u ≡ x.depth
  pub fresh_is : unit_fresh u ≡ 1

tier_rank :
    (w : FeatureWorkControl) → work_type_tier_priority (work_control_to_tier w) ≡ work_rank w
tier_rank discussing = refl
tier_rank researching = refl
tier_rank planning = refl
tier_rank replanning = refl
tier_rank executing = refl
tier_rank ci_check = refl
tier_rank verifying = refl
tier_rank awaiting_merge = refl
tier_rank summarizing = refl
tier_rank work_complete = refl

phase_rank :
    {w : FeatureWorkControl} {phase : AgentRunPhase} {name : String}
    → PhaseOf w phase name
    → work_type_tier_priority (work_type_tier_of phase) ≡ work_rank w
phase_rank discussion = refl
phase_rank research = refl
phase_rank plan = refl
phase_rank replan = refl
phase_rank check = refl
phase_rank verification = refl
phase_rank summary = refl

depth-Deep :
    (metrics : GraphMetrics) (node : String)
    → Deep metrics node (depth_of (get node metrics.node_metrics))
depth-Deep metrics node = elim (Option-cases (get node metrics.node_metrics)) [
  | inl gone ↦ inr (gone, rw gone refl)
  | inr (n, there) ↦ inl (n, there, rw there refl)
]

module _ (locale_compare : String → String → Ordering) (g : Graph) (metrics : GraphMetrics)
    (us : List SchedulableUnit) where
  abbrev Known : SchedulableUnit → Type 0
  Known u =
      (x : Profile g metrics u) × IsRead (ranking_of locale_compare g metrics us) g metrics u x

  profile : (u : SchedulableUnit) (f : Feature) → FeatureOf g u f → Profile g metrics u
  profile u f of = record {
    feature = f;
    of = of;
    position = get f.milestone_id (queue_positions (values g.milestones) []);
    placed = queue_positions-Placed (values g.milestones) f.milestone_id;
    node = unit_to_node_id u;
    is_node = unit_to_node_id-IsNode u;
    depth = depth_of (get (unit_to_node_id u) metrics.node_metrics);
    deep = depth-Deep metrics (unit_to_node_id u);
  }

  task-Known :
      (t : Task) (at : ℕ) (f : Feature)
      → get t.feature_id g.features ≡ some f
      → t.status ≡ ready
      → Known (SchedulableUnit.task t t.feature_id at)
  unfolding profile
  task-Known t at f there is = (
    profile (SchedulableUnit.task t t.feature_id at) f there,
    record {
      position_is = rw there refl;
      tier_is = rw there (tier_rank f.work_control);
      depth_is = refl;
      fresh_is = ground (arith, is);
    },
  )

  phase-Known :
      (f : Feature) (phase : AgentRunPhase) (name : String) (at : ℕ)
      → PhaseOf f.work_control phase name
      → Known (SchedulableUnit.feature_phase f phase at)
  unfolding profile
  phase-Known f phase name at named = (
    profile (SchedulableUnit.feature_phase f phase at) f refl,
    record { position_is = refl; tier_is = phase_rank named; depth_is = refl; fresh_is = refl },
  )

  pub unit-Known :
      (runs : ExecutionRunReader) (now : ℕ) (since : Option (Dict ℕ)) (u : SchedulableUnit)
      → DueTask g runs now since u ⊎ DueFeature g runs now since u
      → Known u
  unit-Known runs now since u (inl (t, at, _, is, _, _, e)) =
      let (f, there, _, _) = is.feature in subst Known (sym e) (task-Known t at f there is.status)
  unit-Known runs now since u (inr (f, phase, name, at, _, _, named, _, _, e)) =
      subst Known (sym e) (phase-Known f phase name at named)
