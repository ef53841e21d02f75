-- ===== src/Types/Payload.antt =====
-- src/core/types/usage.ts, verification.ts and phases.ts: the values that features and tasks carry
-- and that the graph only copies. Amounts of money are whole numbers of a smallest unit, and the
-- untyped `rawUsage` is a text.
use vcode.Base.{ℕ, String, Option, List}

pub record ModelUsageAggregate : Type 0 where
  pub provider : String
  pub model : String
  pub llm_calls : ℕ
  pub input_tokens : ℕ
  pub output_tokens : ℕ
  pub cache_read_tokens : ℕ
  pub cache_write_tokens : ℕ
  pub reasoning_tokens : ℕ
  pub audio_input_tokens : ℕ
  pub audio_output_tokens : ℕ
  pub total_tokens : ℕ
  pub usd : ℕ
  pub raw_usage : Option String

pub record TokenUsageAggregate : Type 0 where
  pub llm_calls : ℕ
  pub input_tokens : ℕ
  pub output_tokens : ℕ
  pub cache_read_tokens : ℕ
  pub cache_write_tokens : ℕ
  pub reasoning_tokens : ℕ
  pub audio_input_tokens : ℕ
  pub audio_output_tokens : ℕ
  pub total_tokens : ℕ
  pub usd : ℕ
  pub by_model : List (String × ModelUsageAggregate)

pub data VerifyIssueSeverity : Type 0 where
  blocking concern nit : VerifyIssueSeverity

pub data CiCheckPhase : Type 0 where
  feature post_rebase : CiCheckPhase

pub record VerifyIssueBase : Type 0 where
  pub id : String
  pub severity : VerifyIssueSeverity
  pub description : String

-- The union by `source`; the last two constructors are the two sources of `RebaseVerifyIssue`.
pub data VerifyIssue : Type 0 where
  verify : VerifyIssueBase → Option String → Option String → VerifyIssue
  ci_check :
      VerifyIssueBase → CiCheckPhase → String → String → Option ℕ → Option String → VerifyIssue
  rebase : VerifyIssueBase → List String → VerifyIssue
  squash : VerifyIssueBase → List String → VerifyIssue

pub record TaskResult : Type 0 where
  pub summary : String
  pub files_changed : List String
