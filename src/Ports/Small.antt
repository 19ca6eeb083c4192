-- ===== src/Ports/Small.antt =====
-- The ports of core/usecase/ports with one or a few methods: clock, IDs, credentials, webhook.
use agentic_delegator.Prelude.{ℕ, String}
use agentic_delegator.Domain.Credentials.{GitCreds, AnthropicCreds}
use agentic_delegator.Exec.{Exec, State}

pub record Clock (W : Type 0) : Type 0 where
  pub now : State W ℕ

pub record IdGenerator (W : Type 0) : Type 0 where
  pub new_job_id : State W String
  pub new_api_key_id : State W String
  pub new_user_id : State W String
  pub new_api_key_plaintext : State W (String × String)

pub record RepoCredentialsProvider (W : Type 0) : Type 0 where
  pub for_repo : String → String → Exec W GitCreds

pub record AnthropicCredentialsProvider (W : Type 0) : Type 0 where
  pub for_user : String → Exec W AnthropicCreds

-- The body is the JSON text.
pub record WebhookDispatcher (W : Type 0) : Type 0 where
  pub dispatch : String → String → Exec W (Unit {0})
