-- ===== src/Scheduling/Priority/Due.antt =====
-- Which units are due, for `prioritizeReadyWork` of src/core/scheduling/index.ts.
use vcode.Base.{
  ℕ, String, ◌≡◌, refl, sym, ap, ◌↔◌, ◌⊎◌, inl, inr, arith, true, false, Bool, ◌||◌, or_else, ◌==◌,
  ◌≢◌, Option, none, some, Memᴰ,
}
use vcode.Base.Dict.{Dict, get, values}
use Prim.Native.String.{◌++◌ as ◌++ˢ◌}
use vcode.Types.Workflow.{
  FeatureWorkControl, executing, awaiting_merge, work_complete, discussing, researching, planning,
  replanning, ci_check, verifying, summarizing,
}
use vcode.Types.Runs.{AgentRun, AgentRunPhase, AgentRunStatus, run_status_eq}
use vcode.State.Features.{Waits, run_blocks_iff}
use vcode.Types.Domain.{Feature, Task}
use vcode.Graph.Store.{Graph}
use vcode.Graph.Queries.Laws.{FeatureIsReady, TaskIsReady}
use vcode.Scheduling.{
  SchedulableUnit, is_blocked_by_run, work_control_to_agent_run_phase, phase_name,
}
use vcode.Scheduling.Priority.{ExecutionRunReader, ready_at_of, run_holds}

-- A run that is under way, has failed or waits.
abbrev pub Holds : ℕ → AgentRun → Type 0
Holds now run =
    (run.run_status ≡ AgentRunStatus.running)
    ⊎ (run.run_status ≡ AgentRunStatus.failed)
    ⊎ Waits run now

-- There is no run of which `P` holds.
abbrev pub NoRun : (AgentRun → Type 0) → Option AgentRun → Type 0
NoRun P none = Unit
NoRun P (some run) = ¬ P run

-- The time that is kept for a key, or else the present time.
abbrev pub KeptTime : Option (Dict ℕ) → String → ℕ → ℕ → Type 0
KeptTime none key now at = at ≡ now
KeptTime (some since) key now at = (get key since ≡ some at) ⊎ ((get key since ≡ none) × (at ≡ now))

-- The phase of a run for the work of a feature that is ready, with the phase's name.
pub data PhaseOf : FeatureWorkControl → AgentRunPhase → String → Type 0 where
  discussion : PhaseOf discussing AgentRunPhase.discuss "discuss"
  research : PhaseOf researching AgentRunPhase.research "research"
  plan : PhaseOf planning AgentRunPhase.plan "plan"
  replan : PhaseOf replanning AgentRunPhase.replan "replan"
  check : PhaseOf ci_check AgentRunPhase.ci_check "ci_check"
  verification : PhaseOf verifying AgentRunPhase.verify "verify"
  summary : PhaseOf summarizing AgentRunPhase.summarize "summarize"

-- A unit of a task that is ready and has no run that waits, or of the phase of a feature that is ready
-- and has no run of that phase that is under way, has failed or waits.
abbrev pub DueTask : Graph → ExecutionRunReader → ℕ → Option (Dict ℕ) → SchedulableUnit → Type 0
DueTask g runs now since u =
    (t : Task) × (at : ℕ) × Memᴰ t (values g.tasks)
    × TaskIsReady g.features g.tasks t
    × NoRun (λ run. Waits run now) (runs t.id none)
    × KeptTime since ("task:" ++ˢ t.id) now at
    × (u ≡ SchedulableUnit.task t t.feature_id at)

abbrev pub DueFeature : Graph → ExecutionRunReader → ℕ → Option (Dict ℕ) → SchedulableUnit → Type 0
DueFeature g runs now since u =
    (f : Feature) × (phase : AgentRunPhase) × (name : String) × (at : ℕ) × Memᴰ f
      (values g.features)
    × FeatureIsReady g.features f
    × PhaseOf f.work_control phase name
    × NoRun (Holds now) (runs f.id (some phase))
    × KeptTime since ("feature:" ++ˢ f.id ++ˢ ":" ++ˢ name) now at
    × (u ≡ SchedulableUnit.feature_phase f phase at)

false_iff : (b : Bool) {A : Type 0} → (b ≡ true) ↔ A → (b ≡ false) ↔ ¬ A
false_iff true same = (λ e. cc, λ no. absurd (no (same.0 refl)))
false_iff false same = (λ e a. let h = same.1 a in cc, λ no. refl)

one_of :
    (a b d : Bool) {A B D : Type 0}
    → (a ≡ true) ↔ A
    → (b ≡ true) ↔ B
    → (d ≡ true) ↔ D
    → ((a || b || d) ≡ true) ↔ (A ⊎ B ⊎ D)
one_of a b d p q s = ground (arith, p, q, s)

pub no_wait :
    (now : ℕ) (o : Option AgentRun)
    → (is_blocked_by_run o now ≡ false) ↔ NoRun (λ run. Waits run now) o
no_wait now none = (λ _. tt, λ _. refl)
no_wait now (some run) = false_iff (is_blocked_by_run (some run) now) (run_blocks_iff run now)

pub no_hold : (now : ℕ) (o : Option AgentRun) → (run_holds o now ≡ false) ↔ NoRun (Holds now) o
no_hold now none = (λ _. tt, λ _. refl)
no_hold now (some run) = false_iff (run_holds (some run) now) (
    one_of (run.run_status == AgentRunStatus.running) (run.run_status == AgentRunStatus.failed)
      (is_blocked_by_run (some run) now) (run_status_eq.equal_iff _ _) (run_status_eq.equal_iff _ _)
      (run_blocks_iff run now))

pub kept_time :
    (since : Option (Dict ℕ)) (key : String) (now at : ℕ)
    → (at ≡ ready_at_of since key now) ↔ KeptTime since key now at
kept_time none key now at = (λ e. e, λ e. e)
kept_time (some since) key now at = kept (get key since)
  where
    kept : (o : Option ℕ) → (at ≡ or_else o now) ↔ ((o ≡ some at) ⊎ ((o ≡ none) × (at ≡ now)))
    kept none = (λ e. inr (refl, e), λ h. elim h [ inl e ↦ cc | inr (_, e) ↦ e ])
    kept (some x) = (λ e. inl (ap some (sym e)), λ h. elim h [ inl e ↦ cc | inr (e, _) ↦ cc ])

pub phase_name_of :
    (w : FeatureWorkControl)
    → w ≢ executing
    → w ≢ awaiting_merge
    → w ≢ work_complete
    → PhaseOf w (work_control_to_agent_run_phase w) (phase_name (work_control_to_agent_run_phase w))
phase_name_of discussing e a c = discussion
phase_name_of researching e a c = research
phase_name_of planning e a c = plan
phase_name_of replanning e a c = replan
phase_name_of ci_check e a c = check
phase_name_of verifying e a c = verification
phase_name_of summarizing e a c = summary
phase_name_of executing e a c = absurd (e refl)
phase_name_of awaiting_merge e a c = absurd (a refl)
phase_name_of work_complete e a c = absurd (c refl)

pub PhaseOf-is :
    {w : FeatureWorkControl} {phase : AgentRunPhase} {name : String}
    → PhaseOf w phase name
    → (phase ≡ work_control_to_agent_run_phase w)
      × (name ≡ phase_name (work_control_to_agent_run_phase w))
PhaseOf-is discussion = (refl, refl)
PhaseOf-is research = (refl, refl)
PhaseOf-is plan = (refl, refl)
PhaseOf-is replan = (refl, refl)
PhaseOf-is check = (refl, refl)
PhaseOf-is verification = (refl, refl)
PhaseOf-is summary = (refl, refl)
