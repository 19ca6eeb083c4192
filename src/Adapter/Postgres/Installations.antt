-- ===== src/Adapter/Postgres/Installations.antt =====
-- core/adapter/postgres/installations_repo.go. The JSON encoding of a list of texts is a parameter.
pub mod Choice
use agentic_delegator.Prelude.{
  ℕ, String, Bool, true, false, ◌||◌, List, [], ◌∷◌, Option, none, some, if◌then◌else◌,
}
use agentic_delegator.Prelude.Int.{ℤ}
use agentic_delegator.Prelude.Text.{◌==◌}
use agentic_delegator.Domain.Errors.{sentinel, not_found}
use agentic_delegator.Exec.{Exec, Result, ok, err, pure, raise, lift, ◌>>=◌}
use agentic_delegator.Adapter.Postgres.Table.{Table}
use agentic_delegator.Adapter.Postgres.Models.{InstallationRow}

-- No repos mean all repos.
pub record Installation : Type 0 where
  pub installation_id : ℤ
  pub user_id : String
  pub account_login : String
  pub repos : List String
  pub created_at : ℕ

-- `marshal` gives the encoding of the list as the JSONB column spells it, whose text is what is read
-- back; `unmarshal` gives what json.Unmarshal leaves in an empty list, its error ignored.
pub record Json : Type 0 where
  pub marshal : List String → Result String
  pub unmarshal : String → List String

-- DO UPDATE SET user_id, account_login, repos = EXCLUDED.…
unfoldable pub replace_installation : InstallationRow → InstallationRow → InstallationRow
replace_installation old r = record old {
  user_id = r.user_id;
  account_login = r.account_login;
  repos = r.repos;
}

unfoldable pub contains : List String → String → Bool
contains [] v = false
contains (s ∷ ss) v = let rest = contains ss v in if s == v then true else rest

abbrev pub no_repos : List String → Bool
no_repos [] = true
no_repos (s ∷ ss) = false

module _ (json : Json) where
  abbrev pub of_row : InstallationRow → Installation
  of_row r = record {
    installation_id = r.installation_id;
    user_id = r.user_id;
    account_login = r.account_login;
    repos = json.unmarshal r.repos;
    created_at = r.created_at;
  }

  -- len(repos) == 0 || contains(repos, repo)
  abbrev pub covers : String → InstallationRow → Bool
  covers repo r = let repos = json.unmarshal r.repos in no_repos repos || contains repos repo

  -- the loop over `rows`
  unfoldable pub first_covering : String → List InstallationRow → Result Installation
  first_covering repo [] = err (sentinel not_found)
  first_covering repo (r ∷ rs) =
      let rest = first_covering repo rs in if covers repo r then ok (of_row r) else rest

  module _ {W : Type 0} (db : Table W ℤ InstallationRow) where
    unfoldable pub upsert : Installation → Exec W (Unit {0})
    upsert i = do
      repos ← lift (json.marshal i.repos)
      db.upsert replace_installation (record {
        installation_id = i.installation_id;
        user_id = i.user_id;
        account_login = i.account_login;
        repos = repos;
        created_at = i.created_at;
      })

    unfoldable pub by_user_and_repo : String → String → Exec W Installation
    by_user_and_repo user repo = do
      rows ← db.query (λ r. r.user_id == user)
      lift (first_covering repo rows)

    abbrev found_installation : Option InstallationRow → Exec W Installation
    found_installation none = raise (sentinel not_found)
    found_installation (some r) = pure (of_row r)

    unfoldable pub by_installation_id : ℤ → Exec W Installation
    by_installation_id id = do row ← db.find id; found_installation row

    unfoldable pub delete : ℤ → Exec W (Unit {0})
    delete id = do n ← db.delete id (λ r. true); pure tt
