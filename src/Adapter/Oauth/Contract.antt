-- ===== src/Adapter/Oauth/Contract.antt =====
-- What an implementation of IdentitiesRepo in core/adapter/http/auth/github_oauth.go promises.
use agentic_delegator.Prelude.{◌≡◌, ◌⊎◌, Option, none, some, int_eq, if◌then◌else◌}
use agentic_delegator.Prelude.Int.{ℤ}
use agentic_delegator.Domain.Errors.{Error, sentinel, not_found}
use agentic_delegator.Exec.{Result, ok, err}
use agentic_delegator.Ports.Jobs.{Answers}
use agentic_delegator.Adapter.Postgres.Identities.{GitHubIdentity}
use agentic_delegator.Adapter.Oauth.{IdentitiesRepo}

abbrev pub known : Option GitHubIdentity → Result GitHubIdentity
known none = err (sentinel not_found)
known (some i) = ok i

-- A GitHub account that is known keeps its user.
abbrev pub kept : Option GitHubIdentity → GitHubIdentity → GitHubIdentity
kept none i = i
kept (some old) i = record old { github_login = i.github_login; email = i.email }

pub record IdentitiesContract {W : Type 0} (repo : IdentitiesRepo W)
    (identities : W → ℤ → Option GitHubIdentity) : Type 0 where
  pub upsert_lem :
      (i : GitHubIdentity) (w : W)
      → (((repo.upsert i w).0 ≡ ok tt)
          × (identities (repo.upsert i w).1 ≡ λ k.
              if int_eq.beq i.github_id k
              then some (kept (identities w i.github_id) i)
              else identities w k))
        ⊎ ((e : Error) × (repo.upsert i w ≡ (err e, w)))
  pub by_github_id_lem :
      (id : ℤ) (w : W) → Answers (repo.by_github_id id w) (known (identities w id)) w
