-- ===== src/Adapter/Postgres/Identities/Laws.antt =====
-- The identities repository keeps the contract that the sign-in needs.
use agentic_delegator.Prelude.{
  ◌≡◌, refl, ap, ◌∙◌, inl, inr, Option, none, some, int_eq, Option-cases, arith, if◌then◌else◌,
}
use agentic_delegator.Prelude.Int.{ℤ}
use agentic_delegator.Domain.Errors.{opaque}
use agentic_delegator.Adapter.Oauth.{IdentitiesRepo}
use agentic_delegator.Adapter.Oauth.Contract.{IdentitiesContract, kept}
use agentic_delegator.Adapter.Postgres.Table.{Table, IsTable, mapped, mapped-changed, merged}
use agentic_delegator.Adapter.Postgres.Models.{IdentityRow}
use agentic_delegator.Adapter.Postgres.Identities.{
  GitHubIdentity, to_identity, from_identity, replace_identity, upsert, by_github_id,
}

abbrev pub identity_key : IdentityRow → ℤ
identity_key r = r.github_id

abbrev pub identities_repo : {W : Type 0} → Table W ℤ IdentityRow → IdentitiesRepo W
identities_repo db = record { upsert = upsert db; by_github_id = by_github_id db }

replaced_key :
    (r old : IdentityRow)
    → identity_key old ≡ identity_key r
    → identity_key (replace_identity old r) ≡ identity_key r
unfolding replace_identity
replaced_key r old same = same

-- ON CONFLICT DO UPDATE is what the contract asks.
merged_kept :
    (o : Option IdentityRow) (i : GitHubIdentity)
    → to_identity (merged replace_identity o (from_identity i)) ≡ kept (mapped to_identity o) i
unfolding replace_identity
merged_kept none i = refl
merged_kept (some old) i = refl

module _ {W : Type 0} (db : Table W ℤ IdentityRow) (rows : W → ℤ → Option IdentityRow)
    (table : IsTable db identity_key rows) where
  open table use {upsert_lem, find_lem}

  abbrev pub identities_of : W → ℤ → Option GitHubIdentity
  identities_of w id = mapped to_identity (rows w id)

  -- Over a table that keeps what SQL promises, the Postgres identities repository keeps the
  -- contract of the sign-in's identities.
  pub identities_repo-IdentitiesContract : IdentitiesContract (identities_repo db) identities_of
  unfolding upsert by_github_id
  identities_repo-IdentitiesContract = record {
    upsert_lem = λ i w.
        elim (upsert_lem replace_identity (from_identity i) w (replaced_key (from_identity i))) [
          | inr (m, failed) ↦ inr (opaque m, failed)
          | inl (done, after) ↦ inl (
            done,
            mapped-changed to_identity _ _ _ _ after
                ∙ ap
                    (λ (x : GitHubIdentity).
                      λ k. if int_eq.beq i.github_id k then some x else identities_of w k)
                    (merged_kept (rows w i.github_id) i),
          )
        ];
    by_github_id_lem = λ id w. elim (find_lem id w) [
      | inr (m, failed) ↦ inr (m, ground arith)
      | inl answer ↦ elim (Option-cases (rows w id)) [
        | inl missing ↦ inl (ground arith)
        | inr (r, there) ↦ inl (ground arith)
      ]
    ];
  }
