-- ===== src/Ports/Secrets.antt =====
-- core/usecase/ports/secrets_repo.go
use agentic_delegator.Prelude.{String, ◌≡◌, ◌⊎◌, Option, none, some, if◌then◌else◌}
use agentic_delegator.Domain.Credentials.{AnthropicCreds}
use agentic_delegator.Exec.{Exec, Result, ok, err}
use agentic_delegator.Domain.Errors.{Error, sentinel, opaque, not_found}
use agentic_delegator.Prelude.Text.{◌==◌}

pub record SecretsRepository (W : Type 0) : Type 0 where
  pub set_anthropic_creds : String → AnthropicCreds → Exec W (Unit {0})
  pub get_anthropic_creds : String → Exec W AnthropicCreds
  pub delete_anthropic_creds : String → Exec W (Unit {0})

abbrev pub stored : Option AnthropicCreds → Result AnthropicCreds
stored none = err (sentinel not_found)
stored (some c) = ok c

-- What the interface promises, errors of the store itself included: a write is seen by the next
-- read of the same user, and touches no other user's secret.
pub record SecretsContract {W : Type 0} (repo : SecretsRepository W)
    (secret : W → String → Option AnthropicCreds) : Type 0 where
  pub set_lem :
      (user : String) (c : AnthropicCreds) (w : W)
      → (((repo.set_anthropic_creds user c w).0 ≡ ok tt)
          × (secret (repo.set_anthropic_creds user c w).1 ≡ λ u.
              if user == u then some c else secret w u))
        ⊎ ((e : Error) × (repo.set_anthropic_creds user c w ≡ (err e, w)))
  pub get_lem :
      (user : String) (w : W)
      → (repo.get_anthropic_creds user w ≡ (stored (secret w user), w))
        ⊎ ((m : String) × (repo.get_anthropic_creds user w ≡ (err (opaque m), w)))
