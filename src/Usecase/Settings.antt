-- ===== src/Usecase/Settings.antt =====
-- core/usecase/mint_api_key.go, revoke_api_key.go and set_anthropic_credentials.go
use agentic_delegator.Prelude.{String, ◌||◌, if◌then◌else◌}
use agentic_delegator.Prelude.Text.{is_empty}
use agentic_delegator.Domain.Errors.{sentinel, invalid_input}
use agentic_delegator.Domain.ApiKey.{ApiKey, new_api_key}
use agentic_delegator.Ports.Keys.{ApiKeysRepository}
use agentic_delegator.Ports.Secrets.{SecretsRepository}
use agentic_delegator.Ports.Small.{Clock, IdGenerator}
use agentic_delegator.Exec.{Exec, pure, raise, call, ◌>>=◌, ◌>>◌}

pub record MintApiKey (W : Type 0) : Type 0 where
  pub keys : ApiKeysRepository W
  pub id_gen : IdGenerator W
  pub clock : Clock W

pub record MintApiKeyInput : Type 0 where
  pub user_id : String
  pub name : String

pub record MintApiKeyOutput : Type 0 where
  pub key : ApiKey
  pub plaintext : String

-- The plaintext goes into the `Hash` field: the repository hashes it.
unfoldable pub mint : {W : Type 0} → MintApiKey W → MintApiKeyInput → Exec W MintApiKeyOutput
mint uc input =
    if is_empty input.user_id || is_empty input.name then raise (sentinel invalid_input) else do
      generated ← call uc.id_gen.new_api_key_plaintext
      id ← call uc.id_gen.new_api_key_id
      now ← call uc.clock.now
      let k = new_api_key id input.user_id input.name generated.1 generated.0 now
      uc.keys.create k
      pure (record { key = k; plaintext = generated.0 })

pub record RevokeApiKey (W : Type 0) : Type 0 where
  pub keys : ApiKeysRepository W

pub record RevokeApiKeyInput : Type 0 where
  pub id : String
  pub user_id : String

unfoldable pub revoke : {W : Type 0} → RevokeApiKey W → RevokeApiKeyInput → Exec W (Unit {0})
revoke uc input =
    if is_empty input.id || is_empty input.user_id
    then raise (sentinel invalid_input)
    else uc.keys.delete input.id input.user_id

pub record SetAnthropicCredentials (W : Type 0) : Type 0 where
  pub secrets : SecretsRepository W

pub record SetAnthropicCredentialsInput : Type 0 where
  pub user_id : String
  pub api_key : String

unfoldable pub set_anthropic :
    {W : Type 0} → SetAnthropicCredentials W → SetAnthropicCredentialsInput → Exec W (Unit {0})
set_anthropic uc input =
    if is_empty input.user_id || is_empty input.api_key
    then raise (sentinel invalid_input)
    else uc.secrets.set_anthropic_creds input.user_id (record { api_key = input.api_key })
