-- ===== src/RetryPolicy.antt =====
-- src/runtime/retry-policy.ts: which errors are tried again, and after which delay. Times are whole
-- milliseconds and attempts whole numbers; the jitter and the random number are fractions, and the
-- products are exact. `toLowerCase` is an argument, and a regular expression is given by its test.
pub mod Bounds
pub mod Patterns
use Prim.Native.Nat.{◌/◌}
use text.Mathlib.Text.{find?}
use vcode.Base.{
  ℕ, zero, suc, ◌+◌, ◌-◌, ◌*◌, String, Bool, true, false, ◌||◌, not, List, [], ◌∷◌, Option, none,
  some, is_some, ◌==◌, nat_eq, if◌then◌else◌, ltb, leb,
}

pub data TransientPattern : Type 0 where
  substring : String → TransientPattern
  regexp : (String → Bool) → TransientPattern

-- `jitterFraction` is `jitter / jitter_unit`.
pub record RetryPolicy : Type 0 where
  pub transient_patterns : List TransientPattern
  pub base_delay_ms : ℕ
  pub max_delay_ms : ℕ
  pub jitter : ℕ
  pub jitter_unit : ℕ
  pub retry_cap : ℕ

-- What `random()` returns: `part / whole`.
pub record RandomNumber : Type 0 where
  pub part : ℕ
  pub whole : ℕ

pub data EscalationReason : Type 0 where
  retry_exhausted semantic_failure : EscalationReason

pub data RetryDecision : Type 0 where
  retry : ℕ → RetryDecision
  escalate_inbox : EscalationReason → RetryDecision

abbrev pub min : ℕ → ℕ → ℕ
min a b = if ltb b a then b else a

-- `base * 2 ** exponent`
unfoldable pub doubled : ℕ → ℕ → ℕ
doubled base zero = base
doubled base (suc n) = 2 * doubled base n

abbrev pub capped_delay : ℕ → RetryPolicy → ℕ
capped_delay attempt policy =
    min (doubled policy.base_delay_ms (min attempt 30)) policy.max_delay_ms

-- `Math.max(0, Math.floor(capped + (random * 2 - 1) * capped * jitterFraction))`, over one
-- denominator; a difference below zero is zero.
unfoldable pub jittered : ℕ → RetryPolicy → RandomNumber → ℕ
jittered capped policy random =
    (capped * (random.whole * policy.jitter_unit)
      + capped * policy.jitter * (2 * random.part)
      - capped * policy.jitter * random.whole)
    / (random.whole * policy.jitter_unit)

unfoldable pub compute_retry_backoff_ms : ℕ → RetryPolicy → RandomNumber → ℕ
compute_retry_backoff_ms attempt policy random =
    let capped = capped_delay attempt policy in
    if policy.jitter == 0 then capped else jittered capped policy random

module _ (to_lower_case : String → String) where
  unfoldable pub is_transient : String → List TransientPattern → Bool
  is_transient error [] = false
  is_transient error (TransientPattern.substring pattern ∷ rest) =
      let later = is_transient error rest in
      if is_some (find? (to_lower_case error) (to_lower_case pattern)) then true else later
  is_transient error (TransientPattern.regexp test ∷ rest) =
      let later = is_transient error rest in if test error then true else later

  unfoldable pub decide_retry : String → ℕ → RetryPolicy → RandomNumber → RetryDecision
  decide_retry error attempt policy random =
      if not (is_transient error policy.transient_patterns)
      then RetryDecision.escalate_inbox EscalationReason.semantic_failure
      else if leb policy.retry_cap attempt
      then RetryDecision.escalate_inbox EscalationReason.retry_exhausted
      else RetryDecision.retry (compute_retry_backoff_ms attempt policy random)
