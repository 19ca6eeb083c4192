-- ===== src/Adapter/Postgres/Secrets.antt =====
-- core/adapter/postgres/secrets_repo.go
use agentic_delegator.Prelude.{
  ℕ, String, true, ◌≡◌, refl, ap, ◌∙◌, inl, inr, Option, none, some, string_eq, Option-cases, arith,
  if◌then◌else◌,
}
use agentic_delegator.Prelude.Text.{◌==◌}
use agentic_delegator.Domain.Errors.{sentinel, opaque, not_found}
use agentic_delegator.Domain.Credentials.{AnthropicCreds}
use agentic_delegator.Exec.{Exec, pure, raise, ◌>>=◌}
use agentic_delegator.Ports.Secrets.{SecretsRepository, SecretsContract}
use agentic_delegator.Adapter.Postgres.Table.{
  Table, IsTable, mapped, mapped-changed, merged, some_affected,
}
use agentic_delegator.Adapter.Postgres.Models.{UserSecretRow}

abbrev pub secret_user : UserSecretRow → String
secret_user r = r.user_id

-- SET anthropic_key_enc = EXCLUDED.anthropic_key_enc, updated_at = EXCLUDED.updated_at
unfoldable pub replace_secret : UserSecretRow → UserSecretRow → UserSecretRow
replace_secret old r = record old {
  anthropic_key_enc = r.anthropic_key_enc;
  updated_at = r.updated_at;
}

abbrev pub creds_of_row : UserSecretRow → AnthropicCreds
creds_of_row r = record { api_key = r.anthropic_key_enc }

-- `now` reads the system's clock.
module _ {W : Type 0} (now : W → ℕ) (db : Table W String UserSecretRow) where
  unfoldable pub set_anthropic_creds : String → AnthropicCreds → Exec W (Unit {0})
  set_anthropic_creds user c w =
      db.upsert replace_secret
        (record { user_id = user; anthropic_key_enc = c.api_key; updated_at = now w }) w

  abbrev found_secret : Option UserSecretRow → Exec W AnthropicCreds
  found_secret none = raise (sentinel not_found)
  found_secret (some r) = pure (creds_of_row r)

  unfoldable pub get_anthropic_creds : String → Exec W AnthropicCreds
  get_anthropic_creds user = do row ← db.find user; found_secret row

  unfoldable pub delete_anthropic_creds : String → Exec W (Unit {0})
  delete_anthropic_creds user = do n ← db.delete user (λ r. true); some_affected n

  abbrev pub secrets_repo : SecretsRepository W
  secrets_repo = record {
    set_anthropic_creds = set_anthropic_creds;
    get_anthropic_creds = get_anthropic_creds;
    delete_anthropic_creds = delete_anthropic_creds;
  }

module _ {W : Type 0} (now : W → ℕ) (db : Table W String UserSecretRow)
    (rows : W → String → Option UserSecretRow) (table : IsTable db secret_user rows) where
  open table use {upsert_lem, find_lem}

  abbrev pub secrets_of : W → String → Option AnthropicCreds
  secrets_of w user = mapped creds_of_row (rows w user)

  replaced_user :
      (r old : UserSecretRow)
      → secret_user old ≡ secret_user r
      → secret_user (replace_secret old r) ≡ secret_user r
  unfolding replace_secret
  replaced_user r old same = same

  merged_creds :
      (o : Option UserSecretRow) (user : String) (c : AnthropicCreds) (t : ℕ)
      → creds_of_row (
          merged replace_secret o
            (record { user_id = user; anthropic_key_enc = c.api_key; updated_at = t }))
        ≡ c
  unfolding replace_secret
  merged_creds none user c t = refl
  merged_creds (some old) user c t = refl

  -- Over a table that keeps what SQL promises, the Postgres secrets repository keeps the contract
  -- of the secrets port.
  pub secrets_repo-SecretsContract : SecretsContract (secrets_repo now db) secrets_of
  unfolding set_anthropic_creds get_anthropic_creds
  secrets_repo-SecretsContract = record {
    set_lem = λ user c w.
        let row : UserSecretRow = record {
          user_id = user;
          anthropic_key_enc = c.api_key;
          updated_at = now w;
        } in
        elim (upsert_lem replace_secret row w (replaced_user row)) [
          | inr (m, failed) ↦ inr (opaque m, failed)
          | inl (done, after) ↦ inl (
            done,
            mapped-changed creds_of_row _ _ _ _ after
                ∙ ap (λ (x : AnthropicCreds). λ u. if user == u then some x else secrets_of w u)
                    (merged_creds (rows w user) user c (now w)),
          )
        ];
    get_lem = λ user w. elim (find_lem user w) [
      | inr (m, failed) ↦ inr (m, ground arith)
      | inl answer ↦ elim (Option-cases (rows w user)) [
        | inl missing ↦ inl (ground arith)
        | inr (r, there) ↦ inl (ground arith)
      ]
    ];
  }
