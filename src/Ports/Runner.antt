-- ===== src/Ports/Runner.antt =====
-- core/usecase/ports/runner_service.go
use agentic_delegator.Prelude.{String, Bool, Option}
use agentic_delegator.Prelude.Int.{ℤ}
use agentic_delegator.Domain.Spec.{SpecSource}
use agentic_delegator.Domain.Credentials.{GitCreds, AnthropicCreds}
use agentic_delegator.Exec.{Exec}

pub record RunnerStartSpec : Type 0 where
  pub job_id : String
  pub repo : String
  pub base_branch : String
  pub work_branch : String
  pub spec : SpecSource
  pub git_creds : GitCreds
  pub anthropic : AnthropicCreds
  pub model : String
  pub log_path : String

pub record RunnerResult : Type 0 where
  pub job_id : String
  pub exit_code : ℤ
  pub pr_url : String
  pub error : String
  pub notification_webhook : String
  pub log_tail : String

-- A nil callback is `none`.
pub record RunnerService (W C : Type 0) : Type 0 where
  pub start : RunnerStartSpec → Option C → Exec W String
  pub inspect : String → Exec W Bool
  pub stop : String → Exec W (Unit {0})
