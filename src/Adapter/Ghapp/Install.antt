-- ===== src/Adapter/Ghapp/Install.antt =====
-- core/adapter/ghapp/install.go. The HTTP client and the reading of the JSON answer are parameters.
pub mod Binding
use agentic_delegator.Prelude.{
  ℕ, String, not, List, [], ◌∷◌, map, Option, none, some, eqb, if◌then◌else◌,
}
use agentic_delegator.Prelude.Int.{ℤ}
use agentic_delegator.Prelude.Text.{◌<>◌}
use agentic_delegator.Go.Decimal.{decimal}
use agentic_delegator.Go.Strings.{parse_int}
use agentic_delegator.Domain.Errors.{Error, opaque}
use agentic_delegator.Exec.{Exec, State, Result, raise, lift, call, pure, ◌>>=◌}
use agentic_delegator.Adapter.Reply.{Reply, Incoming, failed, redirect, with_code, try_call}
use agentic_delegator.Adapter.Postgres.Installations.{Installation}

pub record Repository : Type 0 where
  pub full_name : String
  pub owner_login : String

-- `R` is the type of requests. `get` sends a GET with a bearer token and reads the answer; `now`
-- is time.Now; the token is that of app.InstallationToken.
pub record InstallHandler (W R : Type 0) : Type 0 where
  pub app_slug : String
  pub installation_id_of : R → String
  pub user_from_request : R → Exec W String
  pub upsert : Installation → Exec W (Unit {0})
  pub installation_token : ℤ → Exec W (String × ℕ)
  pub get : String → String → Exec W Incoming
  pub decode_repositories : String → Result (List Repository)
  pub now : State W ℕ

-- The owner of the first repository.
abbrev pub account_of : List Repository → String
account_of [] = ""
account_of (r ∷ rs) = r.owner_login

abbrev pub full_name_of : Repository → String
full_name_of r = r.full_name

abbrev bad_request : Error → Reply
bad_request e = failed 400 "missing installation_id"

abbrev not_signed_in : Error → Reply
not_signed_in e = failed 401 "must be signed in"

-- An Option as (value, error)
abbrev pub parsed : Option ℤ → {W : Type 0} → Exec W ℤ
parsed none = raise (opaque "invalid syntax")
parsed (some n) = pure n

module _ {W R : Type 0} (h : InstallHandler W R) where
  unfoldable pub install : Reply
  install = redirect ("https://github.com/apps/" <> h.app_slug <> "/installations/new")

  unfoldable pub fetch_account_and_repos : String → Exec W (String × List String)
  fetch_account_and_repos token = do
    resp ← h.get "https://api.github.com/installation/repositories" token
    rs ←
        if not (eqb resp.code 200)
        then raise (opaque ("github api: " <> decimal resp.code))
        else lift (h.decode_repositories resp.body)
    pure (account_of rs, map full_name_of rs)

  unfoldable pub callback : R → State W Reply
  callback r = try_call (h.user_from_request r) not_signed_in λ uid.
      try_call (parsed (parse_int (h.installation_id_of r))) bad_request λ id.
        try_call (h.installation_token id) (with_code 500) λ tok.
          try_call (fetch_account_and_repos tok.0) (with_code 500) λ found.
            try_call
              (do
                now ← call h.now
                h.upsert (record {
                  installation_id = id;
                  user_id = uid;
                  account_login = found.0;
                  repos = found.1;
                  created_at = now;
                }))
              (with_code 500) (λ done w. (redirect "/dashboard", w))
