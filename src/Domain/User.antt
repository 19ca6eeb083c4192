-- ===== src/Domain/User.antt =====
-- core/domain/user.go
use agentic_delegator.Prelude.{ℕ, String}

pub record User : Type 0 where
  pub id : String
  pub display_name : String
  pub created_at : ℕ

unfoldable pub new_user : String → String → ℕ → User
new_user id display_name now = record { id = id; display_name = display_name; created_at = now }
