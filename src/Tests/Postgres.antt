-- ===== src/Tests/Postgres.antt =====
-- The Postgres repositories over tables in memory, and what is built on them.
use agentic_delegator.Prelude.{
  String, true, false, ◌≡◌, ◌⊎◌, List, [], ◌∷◌, some, string_eq, int_eq, bytes_eq,
}
use agentic_delegator.Prelude.Int.{ℤ, pos}
use agentic_delegator.Domain.Errors.{sentinel, opaque, not_found}
use agentic_delegator.Exec.{ok, err}
use agentic_delegator.Ports.Jobs.{JobsContract}
use agentic_delegator.Adapter.Postgres.Table.Memory.{memory_table, rows_in, memory_table-IsTable}
use agentic_delegator.Adapter.Postgres.Models.{InstallationRow}
use agentic_delegator.Adapter.Postgres.Jobs.{jobs_repo}
use agentic_delegator.Adapter.Postgres.Jobs.Laws.{row_id, jobs_of, jobs_repo-JobsContract}
use agentic_delegator.Adapter.Postgres.Installations.{Json, of_row, covers, by_user_and_repo}
use agentic_delegator.Adapter.Postgres.Installations.Choice.{row_key, by_user_and_repo-owned}

jobs_repo-JobsContract_example :
    JobsContract
      (jobs_repo (memory_table row_id))
      (jobs_of (memory_table row_id) (rows_in row_id) (memory_table-IsTable row_id))
jobs_repo-JobsContract_example =
    jobs_repo-JobsContract (memory_table row_id) (rows_in row_id) (memory_table-IsTable row_id)

-- The text is the one repo, or nothing.
abbrev pub one_repo : Json
one_repo = record {
  marshal = λ rs. elim rs [ [] ↦ ok "" | r ∷ more ↦ ok r ];
  unmarshal = λ s. s ∷ [];
}

abbrev pub installed : List InstallationRow
installed =
    record {
      installation_id = pos 7;
      user_id = "u_1";
      account_login = "o";
      repos = "o/r";
      created_at = 1;
    }
    ∷ []

by_user_and_repo-owned_example :
    ((r : InstallationRow) × (rows_in row_key installed r.installation_id ≡ some r)
      × (r.user_id ≡ "u_1")
      × (covers one_repo "o/r" r ≡ true)
      × (by_user_and_repo one_repo (memory_table row_key) "u_1" "o/r" installed
          ≡ (ok (of_row one_repo r), installed)))
    ⊎ ((by_user_and_repo one_repo (memory_table row_key) "u_1" "o/r" installed
          ≡ (err (sentinel not_found), installed))
        × ((id : ℤ) (r : InstallationRow)
            → rows_in row_key installed id ≡ some r
            → r.user_id ≡ "u_1"
            → covers one_repo "o/r" r ≡ false))
    ⊎ ((m : String) × (by_user_and_repo one_repo (memory_table row_key) "u_1" "o/r" installed
          ≡ (err (opaque m), installed)))
by_user_and_repo-owned_example =
    by_user_and_repo-owned one_repo (memory_table row_key) (rows_in row_key)
      (memory_table-IsTable row_key) "u_1" "o/r" installed
