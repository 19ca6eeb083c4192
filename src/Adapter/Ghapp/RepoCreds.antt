-- ===== src/Adapter/Ghapp/RepoCreds.antt =====
-- core/adapter/ghapp/repo_creds.go. The lookup of an installation and the token service of GitHub
-- are parameters.
use agentic_delegator.Prelude.{ℕ, String}
use agentic_delegator.Prelude.Int.{ℤ}
use agentic_delegator.Adapter.Postgres.Installations.{Installation}
use agentic_delegator.Domain.Credentials.{GitCreds}
use agentic_delegator.Ports.Small.{RepoCredentialsProvider}
use agentic_delegator.Exec.{Exec, pure, ◌>>=◌}

pub record RepoCredsProvider (W : Type 0) : Type 0 where
  pub installation_token : ℤ → Exec W (String × ℕ)
  pub by_user_and_repo : String → String → Exec W Installation

unfoldable pub creds_for : {W : Type 0} → RepoCredsProvider W → String → String → Exec W GitCreds
creds_for p user_id repo = do
  inst ← p.by_user_and_repo user_id repo
  minted ← p.installation_token inst.installation_id
  pure (record { token = minted.0; expires_at = minted.1 })

abbrev pub repo_creds : {W : Type 0} → RepoCredsProvider W → RepoCredentialsProvider W
repo_creds p = record { for_repo = creds_for p }
