-- ===== src/Examples/Work.antt =====
-- The theorems on scheduling and on retries at concrete inputs.
use Prim.Native.Nat.{compare}
use Prim.Native.String.{len}
use vcode.Base.{
  ℕ, suc, ◌+◌, ◌*◌, ◌<◌, ◌≤◌, String, ◌≡◌, refl, ◌↔◌, ◌⊎◌, arith, [], ◌∷◌, none, Memᴰ, Ordering,
  string_eq,
}
use vcode.Scheduling.{SchedulableUnit, GraphMetrics}
use vcode.Scheduling.Priority.{ExecutionRunReader, prioritize_ready_work, feature_unit}
use mathlib.Core.List.Memᴰ
use vcode.Scheduling.Priority.Due.{DueTask, DueFeature}
use vcode.Scheduling.Priority.Exact.{mem-prioritize}
use vcode.Graph.Creation.{new_feature}
use vcode.RetryPolicy.{
  RetryPolicy, RandomNumber, RetryDecision, EscalationReason, TransientPattern, capped_delay,
  compute_retry_backoff_ms, is_transient, decide_retry, doubled, jittered,
}
use vcode.RetryPolicy.Bounds.{backoff_bounds}
use vcode.RetryPolicy.Patterns.{MatchesSome, decide_retry_iff}
use vcode.Examples.Fixtures.{linked, feature_options}

-- An order of texts, for `localeCompare`.
abbrev by_length : String → String → Ordering
by_length a b = compare (len a) (len b)

abbrev idle : ExecutionRunReader
idle id phase = none

abbrev unmeasured : GraphMetrics
unmeasured = record { node_metrics = [] }

abbrev api_unit : SchedulableUnit
api_unit = feature_unit none 5 (new_feature (feature_options "f-api") 0)

mem-prioritize_example :
    Memᴰ api_unit (prioritize_ready_work by_length linked idle unmeasured 5 none)
    ↔ (DueTask linked idle 5 none api_unit ⊎ DueFeature linked idle 5 none api_unit)
mem-prioritize_example = mem-prioritize by_length linked idle unmeasured 5 none api_unit

-- The default policy, with one of its patterns.
abbrev policy : RetryPolicy
policy = record {
  transient_patterns = TransientPattern.substring "health_timeout" ∷ [];
  base_delay_ms = 1000;
  max_delay_ms = 60000;
  jitter = 1;
  jitter_unit = 4;
  retry_cap = 5;
}

abbrev half : RandomNumber
half = record { part = 1; whole = 2 }

backoff_bounds_example :
    (4 * compute_retry_backoff_ms 3 policy half
      ≤ 4 * capped_delay 3 policy + 1 * capped_delay 3 policy)
    × (4 * capped_delay 3 policy
        < 4 * suc (compute_retry_backoff_ms 3 policy half) + 1 * capped_delay 3 policy)
    × (4 * compute_retry_backoff_ms 3 policy half ≤ (4 + 1) * 60000)
backoff_bounds_example = backoff_bounds 3 policy half (omega arith) (omega arith)

-- Without an offset the fourth delay is eight times the first, and the seventh is the maximum.
delays :
    (compute_retry_backoff_ms 3 policy half ≡ 8000)
    × (compute_retry_backoff_ms 6 policy half ≡ 60000)
unfolding compute_retry_backoff_ms jittered doubled
delays = (refl, refl)

abbrev same_case : String → String
same_case text = text

decide_retry_iff_example :
    ((delay : ℕ)
      → (decide_retry same_case "a health_timeout" 2 policy half ≡ RetryDecision.retry delay) ↔ (
          MatchesSome same_case "a health_timeout" policy.transient_patterns
          × (2 < 5)
          × (delay ≡ compute_retry_backoff_ms 2 policy half)))
    × ((decide_retry same_case "a health_timeout" 2 policy half
          ≡ RetryDecision.escalate_inbox EscalationReason.retry_exhausted)
        ↔ (MatchesSome same_case "a health_timeout" policy.transient_patterns × (5 ≤ 2)))
    × ((decide_retry same_case "a health_timeout" 2 policy half
          ≡ RetryDecision.escalate_inbox EscalationReason.semantic_failure)
        ↔ ¬ MatchesSome same_case "a health_timeout" policy.transient_patterns)
decide_retry_iff_example = decide_retry_iff same_case "a health_timeout" 2 policy half

tried_again : decide_retry same_case "a health_timeout" 2 policy half ≡ RetryDecision.retry 4000
unfolding decide_retry is_transient compute_retry_backoff_ms jittered doubled
tried_again = refl
