-- ===== src/Adapter/Postgres/Keys.antt =====
-- core/adapter/postgres/api_keys_repo.go
pub mod Laws
use agentic_delegator.Prelude.{ℕ, String, List, map, none, some}
use agentic_delegator.Prelude.Text.{◌==◌}
use agentic_delegator.Domain.ApiKey.{ApiKey}
use agentic_delegator.Exec.{◌>>◌, Exec, pure, ◌>>=◌}
use agentic_delegator.Ports.Keys.{ApiKeysRepository}
use agentic_delegator.Adapter.Postgres.Table.{Table, some_affected}
use agentic_delegator.Adapter.Postgres.Models.{ApiKeyRow, to_api_key}

-- The row that Create writes.
unfoldable pub from_api_key : ApiKey → ApiKeyRow
from_api_key k = record {
  id = k.id;
  user_id = k.user_id;
  name = k.name;
  prefix = k.prefix;
  hash = k.hash;
  last_used_at = k.last_used_at;
  created_at = k.created_at;
}

module _ {W : Type 0} (db : Table W String ApiKeyRow) where
  unfoldable pub create : ApiKey → Exec W (Unit {0})
  create k = db.insert (from_api_key k)

  unfoldable pub get_by_prefix : String → Exec W (List ApiKey)
  get_by_prefix prefix = do rows ← db.query (λ r. r.prefix == prefix); pure (map to_api_key rows)

  unfoldable pub list_for_user : String → Exec W (List ApiKey)
  list_for_user user = do
    rows ← db.newest (λ r. r.created_at) (λ r. r.user_id == user) none
    pure (map to_api_key rows)

  unfoldable pub delete : String → String → Exec W (Unit {0})
  delete id user = do n ← db.delete id (λ r. r.user_id == user); some_affected n

  unfoldable pub record_used : String → ℕ → Exec W (Unit {0})
  record_used id at = do
    n ← db.update id (λ r. record r { last_used_at = some at })
    some_affected n

  abbrev pub keys_repo : ApiKeysRepository W
  keys_repo = record {
    create = create;
    get_by_prefix = get_by_prefix;
    list_for_user = list_for_user;
    delete = delete;
    record_used = record_used;
  }
