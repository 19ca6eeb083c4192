-- ===== src/Domain/ApiKey.antt =====
-- core/domain/api_key.go
use agentic_delegator.Prelude.{ℕ, String, Option, none, some}

pub record ApiKey : Type 0 where
  pub id : String
  pub user_id : String
  pub name : String
  pub prefix : String
  pub hash : String
  pub last_used_at : Option ℕ
  pub created_at : ℕ

unfoldable pub new_api_key : String → String → String → String → String → ℕ → ApiKey
new_api_key id user_id name prefix hash now = record {
  id = id;
  user_id = user_id;
  name = name;
  prefix = prefix;
  hash = hash;
  last_used_at = none;
  created_at = now;
}

unfoldable pub record_used : ApiKey → ℕ → ApiKey
record_used k now = record k { last_used_at = some now }
