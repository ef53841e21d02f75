-- ===== src/Types/Runs.antt =====
-- src/core/types/runs.ts: the run of an agent. The union over `scopeType` is the field `scope`.
use vcode.Base.{ℕ, String, Option, ◌≡◌, ◌↔◌, true, arith, StrictEq, nat_beq}
use vcode.Types.Workflow.{FeatureId, TaskId}
use vcode.Types.Payload.{TokenUsageAggregate}

pub data AgentRunHarnessKind : Type 0 where
  pi_sdk claude_code : AgentRunHarnessKind

pub data AgentRunPhase : Type 0 where
  execute discuss research plan ci_check verify summarize replan : AgentRunPhase

pub data AgentRunStatus : Type 0 where
  ready running retry_await await_response await_approval completed failed cancelled :
      AgentRunStatus

pub data RunOwner : Type 0 where
  system manual : RunOwner

pub data RunAttention : Type 0 where
  none crashloop_backoff operator : RunAttention

-- `scopeType` with its `scopeId`.
pub data RunScope : Type 0 where
  task : TaskId → RunScope
  feature_phase : FeatureId → RunScope
  project : RunScope

pub record AgentRun : Type 0 where
  pub id : String
  pub scope : RunScope
  pub phase : AgentRunPhase
  pub run_status : AgentRunStatus
  pub owner : RunOwner
  pub attention : RunAttention
  pub session_id : Option String
  pub harness_kind : Option AgentRunHarnessKind
  pub worker_pid : Option ℕ
  pub worker_boot_epoch : Option ℕ
  pub harness_meta_json : Option String
  pub payload_json : Option String
  pub token_usage : Option TokenUsageAggregate
  pub restart_count : ℕ
  pub max_retries : ℕ
  pub retry_at : Option ℕ

abbrev pub run_status_tag : AgentRunStatus → ℕ
run_status_tag AgentRunStatus.ready = 0
run_status_tag AgentRunStatus.running = 1
run_status_tag AgentRunStatus.retry_await = 2
run_status_tag AgentRunStatus.await_response = 3
run_status_tag AgentRunStatus.await_approval = 4
run_status_tag AgentRunStatus.completed = 5
run_status_tag AgentRunStatus.failed = 6
run_status_tag AgentRunStatus.cancelled = 7

pub run_status_beq_iff :
    (a b : AgentRunStatus) → (nat_beq (run_status_tag a) (run_status_tag b) ≡ true) ↔ (a ≡ b)
run_status_beq_iff a b = ground arith

instance abbrev pub run_status_eq : StrictEq AgentRunStatus
run_status_eq = record {
  equal = λ a b. nat_beq (run_status_tag a) (run_status_tag b);
  equal_iff = run_status_beq_iff;
}
