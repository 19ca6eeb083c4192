-- ===== src/Adapter/Postgres/Identities.antt =====
-- core/adapter/postgres/identities_repo.go and users_repo.go
pub mod Laws
use agentic_delegator.Prelude.{ℕ, String, Option, none, some}
use agentic_delegator.Prelude.Int.{ℤ}
use agentic_delegator.Domain.Errors.{sentinel, not_found}
use agentic_delegator.Exec.{Exec, pure, raise, ◌>>=◌}
use agentic_delegator.Adapter.Postgres.Table.{Table}
use agentic_delegator.Adapter.Postgres.Models.{IdentityRow, UserRow}

pub record GitHubIdentity : Type 0 where
  pub user_id : String
  pub github_id : ℤ
  pub github_login : String
  pub email : String

-- DO UPDATE SET github_login, email = EXCLUDED.…: the user stays.
unfoldable pub replace_identity : IdentityRow → IdentityRow → IdentityRow
replace_identity old r = record old { github_login = r.github_login; email = r.email }

abbrev pub to_identity : IdentityRow → GitHubIdentity
to_identity r = record {
  user_id = r.user_id;
  github_id = r.github_id;
  github_login = r.github_login;
  email = r.email;
}

abbrev pub from_identity : GitHubIdentity → IdentityRow
from_identity i = record {
  user_id = i.user_id;
  github_id = i.github_id;
  github_login = i.github_login;
  email = i.email;
}

module _ {W : Type 0} (db : Table W ℤ IdentityRow) where
  unfoldable pub upsert : GitHubIdentity → Exec W (Unit {0})
  upsert i = db.upsert replace_identity (from_identity i)

  abbrev found_identity : Option IdentityRow → Exec W GitHubIdentity
  found_identity none = raise (sentinel not_found)
  found_identity (some r) = pure (to_identity r)

  unfoldable pub by_github_id : ℤ → Exec W GitHubIdentity
  by_github_id id = do row ← db.find id; found_identity row

-- DO UPDATE SET display_name = EXCLUDED.display_name
unfoldable pub replace_user : UserRow → UserRow → UserRow
replace_user old r = record old { display_name = r.display_name }

unfoldable pub upsert_admin :
    {W : Type 0} → Table W String UserRow → String → String → ℕ → Exec W (Unit {0})
upsert_admin db id display_name now =
    db.upsert replace_user (record { id = id; display_name = display_name; created_at = now })
