-- ===== src/Testutil/FakeJobs.antt =====
-- core/testutil/fake_jobs_repo.go. The map is the list of its values, each under its own ID. What
-- is copied on a read or a write is a value here.
pub mod Counts
pub mod Laws
use agentic_delegator.Prelude.{
  string_eq, ℕ, String, Bool, true, false, ◌&&◌, ◌||◌, not, Option, none, some, List, length,
  select, take, if◌then◌else◌,
}
use agentic_delegator.Prelude.Int.{ℤ, is_positive, exceeds, to_nat}
use agentic_delegator.Prelude.Text.{◌==◌}
use agentic_delegator.Domain.Errors.{sentinel, not_found, conflict}
use agentic_delegator.Domain.Job.{
  Job, JobStatus, queued, running, succeeded, failed, cancelled, unknown, is_queued, is_running,
}
use agentic_delegator.Go.Map
use agentic_delegator.Go.Listing
use agentic_delegator.Exec.{Exec, pure, raise, ◌>>=◌}

abbrev pub FakeJobsRepo : Type 0
FakeJobsRepo = List Job

abbrev pub key : Job → String
key j = j.id

-- a == b on job statuses
abbrev pub status_eq : JobStatus → JobStatus → Bool
status_eq queued queued = true
status_eq running running = true
status_eq succeeded succeeded = true
status_eq failed failed = true
status_eq cancelled cancelled = true
status_eq (unknown s p) (unknown t q) = s == t
status_eq _ _ = false

create_in : Option Job → Job → Exec FakeJobsRepo (Unit {0})
create_in (some old) j m = raise (sentinel conflict) m
create_in none j m = pure tt (Map.insert key j m)

unfoldable pub create : Job → Exec FakeJobsRepo (Unit {0})
unfolding create_in
create j m = create_in (Map.lookup key j.id m) j m

get_in : Option Job → Exec FakeJobsRepo Job
get_in none = raise (sentinel not_found)
get_in (some j) = pure j

unfoldable pub get : String → Exec FakeJobsRepo Job
unfolding get_in
get id m = get_in (Map.lookup key id m) m

unfoldable pub get_for_user : String → String → Exec FakeJobsRepo Job
get_for_user id user = do
  j ← get id
  if not (j.user_id == user) then raise (sentinel not_found) else pure j

-- sort.Slice by CreatedAt, the latest first.
abbrev pub newest_first : List Job → List Job
newest_first js = Listing.newest_first (λ j. j.created_at) js

unfoldable pub list_for_user : String → ℤ → Exec FakeJobsRepo (List Job)
list_for_user user limit m =
    let out = newest_first (select (λ j. j.user_id == user) (Map.values key m)) in
    pure (if is_positive limit && exceeds (length out) limit then take (to_nat limit) out else out)
      m

unfoldable pub list_by_status : JobStatus → Exec FakeJobsRepo (List Job)
list_by_status status m = pure (select (λ j. status_eq j.status status) (Map.values key m)) m

update_in : Option Job → Job → Exec FakeJobsRepo (Unit {0})
update_in none j m = raise (sentinel not_found) m
update_in (some old) j m = pure tt (Map.insert key j m)

unfoldable pub update : Job → Exec FakeJobsRepo (Unit {0})
unfolding update_in
update j m = update_in (Map.lookup key j.id m) j m

unfoldable pub count_active_for_user : String → Exec FakeJobsRepo ℕ
count_active_for_user user m =
    pure
      (length (
        select (λ j. j.user_id == user && (is_queued j.status || is_running j.status))
          (Map.values key m)))
      m

unfoldable pub count_active_global : Exec FakeJobsRepo ℕ
count_active_global m =
    pure (length (select (λ j. is_queued j.status || is_running j.status) (Map.values key m))) m
