-- ===== src/Adapter/Postgres/Installations/Choice.antt =====
-- Which installation a job's credentials come from.
use agentic_delegator.Prelude.{
  String, All-at, true, false, ◌≡◌, refl, ◌⊎◌, inl, inr, List, [], ◌∷◌, Option, some, All,
  Bool-cases, arith, eq_iff, int_eq,
}
use agentic_delegator.Prelude.Int.{ℤ}
use agentic_delegator.Prelude.Text.{◌==◌}
use agentic_delegator.Domain.Errors.{sentinel, opaque, not_found}
use agentic_delegator.Exec.{ok, err}
use agentic_delegator.Adapter.Postgres.Table.{Table, IsTable}
use agentic_delegator.Adapter.Postgres.Models.{InstallationRow}
use agentic_delegator.Adapter.Postgres.Installations.{
  Json, of_row, covers, first_covering, by_user_and_repo,
}

abbrev pub row_key : InstallationRow → ℤ
row_key r = r.installation_id

module _ (json : Json) where
  -- The loop ends at a row of the list that covers the repo, or no row does.
  first_covering-cases :
      (P : InstallationRow → Type 0) (repo : String) (rs : List InstallationRow)
      → All P rs
      → ((r : InstallationRow) × P r
          × (covers json repo r ≡ true)
          × (first_covering json repo rs ≡ ok (of_row json r)))
        ⊎ ((first_covering json repo rs ≡ err (sentinel not_found))
            × All (λ r. covers json repo r ≡ false) rs)
  unfolding first_covering
  first_covering-cases P repo [] h = inr (refl, tt)
  first_covering-cases P repo (r ∷ rs) h = elim (Bool-cases (covers json repo r)) [
    | inl fits ↦ inl (r, h.0, fits, rw fits refl)
    | inr misses ↦ elim (first_covering-cases P repo rs h.1) [
      | inl (s, there, fits, chosen) ↦ inl (s, there, fits, rw misses chosen)
      | inr (no_one, all_miss) ↦ inr (rw misses no_one, (misses, all_miss))
    ]
  ]

module _ (json : Json) {W : Type 0} (db : Table W ℤ InstallationRow)
    (rows : W → ℤ → Option InstallationRow) (table : IsTable db row_key rows) where
  open table use {query_lem}

  -- Over a table that keeps what SQL promises:
  -- the installation that credentials for a repo are taken from is one of the user's own that
  -- covers the repo; that there is none is answered only where none of the user's rows covers it;
  -- anything else is an error of the store. Nothing is written.
  pub by_user_and_repo-owned :
      (user repo : String) (w : W)
      → ((r : InstallationRow) × (rows w r.installation_id ≡ some r)
          × (r.user_id ≡ user)
          × (covers json repo r ≡ true)
          × (by_user_and_repo json db user repo w ≡ (ok (of_row json r), w)))
        ⊎ ((by_user_and_repo json db user repo w ≡ (err (sentinel not_found), w))
            × ((id : ℤ) (r : InstallationRow)
                → rows w id ≡ some r
                → r.user_id ≡ user
                → covers json repo r ≡ false))
        ⊎ ((m : String) × (by_user_and_repo json db user repo w ≡ (err (opaque m), w)))
  unfolding by_user_and_repo
  by_user_and_repo-owned user repo w = elim (query_lem (λ r. r.user_id == user) w) [
    | inr (m, failed) ↦ inr (inr (m, ground arith))
    | inl (rs, listed, sound, complete) ↦ elim (first_covering-cases json _ repo rs sound) [
      | inl (r, (there, mine), fits, chosen) ↦
          inl (r, there, (eq_iff r.user_id user).0 mine, fits, rw (listed, chosen) refl)
      | inr (no_one, all_miss) ↦ inr (
          inl (
            rw (listed, no_one) refl,
            λ id r there mine.
                All-at _ r rs all_miss (complete id r there ((eq_iff r.user_id user).1 mine)),
          ))
    ]
  ]
