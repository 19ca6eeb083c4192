-- ===== src/Domain/Job.antt =====
-- core/domain/job.go: the job and its state machine. A method that mutates `*Job` and returns an
-- error returns the new job or the error; on an error the source leaves the job as it was.
pub mod Lifecycle
use agentic_delegator.Prelude.{
  ℕ, String, Bool, true, false, not, ◌&&◌, ◌||◌, ◌≡◌, Option, none, some, if◌then◌else◌,
}
use agentic_delegator.Prelude.Text.{◌==◌}
use agentic_delegator.Domain.Errors.{sentinel, invalid_state}
use agentic_delegator.Domain.Spec.{SpecSource}
use agentic_delegator.Exec.{Result, ok, err}

abbrev pub is_status : String → Bool
is_status s =
    s == "queued" || (s == "running" || (s == "succeeded" || (s == "failed" || s == "cancelled")))

-- The Go type is a string: `unknown` holds any text other than the five constants.
pub data JobStatus : Type 0 where
  queued running succeeded failed cancelled : JobStatus
  unknown : (s : String) → is_status s ≡ false → JobStatus

abbrev pub is_queued : JobStatus → Bool
is_queued queued = true
is_queued _ = false

abbrev pub is_running : JobStatus → Bool
is_running running = true
is_running _ = false

pub record Job : Type 0 where
  pub id : String
  pub user_id : String
  pub status : JobStatus
  pub repo : String
  pub base_branch : String
  pub work_branch : String
  pub spec : SpecSource
  pub model_override : String
  pub container_id : String
  pub pr_url : String
  pub error : String
  pub log_path : String
  pub created_at : ℕ
  pub started_at : Option ℕ
  pub finished_at : Option ℕ

unfoldable pub new_job : String → String → String → String → String → SpecSource → String → ℕ → Job
new_job id user_id repo base_branch work_branch spec model_override now = record {
  id = id;
  user_id = user_id;
  status = queued;
  repo = repo;
  base_branch = base_branch;
  work_branch = work_branch;
  spec = spec;
  model_override = model_override;
  container_id = "";
  pr_url = "";
  error = "";
  log_path = "";
  created_at = now;
  started_at = none;
  finished_at = none;
}

abbrev terminal_status : JobStatus → Bool
terminal_status succeeded = true
terminal_status failed = true
terminal_status cancelled = true
terminal_status _ = false

unfoldable pub is_terminal : Job → Bool
is_terminal j = terminal_status j.status

unfoldable pub mark_running : Job → String → ℕ → Result Job
mark_running j container_id now =
    if not (is_queued j.status)
    then err (sentinel invalid_state)
    else ok (record j { status = running; container_id = container_id; started_at = some now })

unfoldable pub mark_succeeded : Job → String → ℕ → Result Job
mark_succeeded j pr_url now =
    if not (is_running j.status)
    then err (sentinel invalid_state)
    else ok (record j { status = succeeded; pr_url = pr_url; finished_at = some now })

unfoldable pub mark_failed : Job → String → ℕ → Result Job
unfolding is_terminal
mark_failed j reason now =
    if is_terminal j
    then err (sentinel invalid_state)
    else ok (record j { status = failed; error = reason; finished_at = some now })

unfoldable pub mark_cancelled : Job → ℕ → Result Job
mark_cancelled j now =
    if not (is_queued j.status) && not (is_running j.status)
    then err (sentinel invalid_state)
    else ok (record j { status = cancelled; finished_at = some now })
