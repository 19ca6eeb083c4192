-- ===== src/Adapter/Postgres/Jobs.antt =====
-- core/adapter/postgres/jobs_repo.go
pub mod Laws
use agentic_delegator.Prelude.{
  ℕ, String, Bool, ◌||◌, ◌&&◌, List, map, Option, none, some, if◌then◌else◌,
}
use agentic_delegator.Prelude.Int.{ℤ}
use agentic_delegator.Prelude.Text.{◌==◌}
use agentic_delegator.Domain.Errors.{sentinel, not_found}
use agentic_delegator.Domain.Job.{Job, JobStatus, queued, running}
use agentic_delegator.Domain.Names.{status_text}
use agentic_delegator.Exec.{◌>>◌, Exec, pure, raise, ◌>>=◌}
use agentic_delegator.Ports.Jobs.{limit_of, JobsRepository}
use agentic_delegator.Adapter.Postgres.Table.{Table, some_affected}
use agentic_delegator.Adapter.Postgres.Models.{JobRow, to_job, from_job}

-- WHERE status IN ('queued', 'running')
abbrev pub is_active : JobRow → Bool
is_active r = r.status == status_text queued || r.status == status_text running

module _ {W : Type 0} (db : Table W String JobRow) where
  unfoldable pub create : Job → Exec W (Unit {0})
  create j = db.insert (from_job j)

  abbrev found_row : Option JobRow → Exec W Job
  found_row none = raise (sentinel not_found)
  found_row (some r) = pure (to_job r)

  unfoldable pub get : String → Exec W Job
  get id = do row ← db.find id; found_row row

  unfoldable pub get_for_user : String → String → Exec W Job
  unfolding get
  get_for_user id user = do
    j ← get id
    if j.user_id == user then pure j else raise (sentinel not_found)

  unfoldable pub list_for_user : String → ℤ → Exec W (List Job)
  list_for_user user limit = do
    rows ← db.newest (λ r. r.created_at) (λ r. r.user_id == user) (limit_of limit)
    pure (map to_job rows)

  unfoldable pub list_by_status : JobStatus → Exec W (List Job)
  list_by_status s = do rows ← db.query (λ r. r.status == status_text s); pure (map to_job rows)

  unfoldable pub update : Job → Exec W (Unit {0})
  update j = do n ← db.update j.id (λ old. from_job j); some_affected n

  unfoldable pub count_active_for_user : String → Exec W ℕ
  count_active_for_user user = db.count (λ r. (r.user_id == user) && is_active r)

  unfoldable pub count_active_global : Exec W ℕ
  count_active_global = db.count is_active

  abbrev pub jobs_repo : JobsRepository W
  jobs_repo = record {
    create = create;
    get = get;
    get_for_user = get_for_user;
    list_for_user = list_for_user;
    list_by_status = list_by_status;
    update = update;
    count_active_for_user = count_active_for_user;
    count_active_global = count_active_global;
  }
