-- ===== src/Domain/Credentials.antt =====
-- core/domain/credentials.go. A time is a number of nanoseconds since Go's zero time.
use agentic_delegator.Prelude.{ℕ, String, Bool, false, not, ltb, eqb, if◌then◌else◌}

pub record GitCreds : Type 0 where
  pub token : String
  pub expires_at : ℕ

-- !now.Before(c.ExpiresAt), but a zero ExpiresAt never expires
unfoldable pub expired : GitCreds → ℕ → Bool
expired c now = if eqb c.expires_at 0 then false else not (ltb now c.expires_at)

pub record AnthropicCreds : Type 0 where
  pub api_key : String
