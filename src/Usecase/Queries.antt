-- ===== src/Usecase/Queries.antt =====
-- core/usecase/get_job.go and core/usecase/list_jobs.go
pub mod Own
use agentic_delegator.Prelude.{String, ◌||◌, List, if◌then◌else◌}
use agentic_delegator.Prelude.Int.{ℤ, pos, is_positive}
use agentic_delegator.Prelude.Text.{is_empty}
use agentic_delegator.Domain.Errors.{sentinel, invalid_input}
use agentic_delegator.Domain.Job.{Job}
use agentic_delegator.Ports.Jobs.{JobsRepository}
use agentic_delegator.Exec.{Exec, raise}

pub record GetJob (W : Type 0) : Type 0 where
  pub jobs : JobsRepository W

pub record GetJobInput : Type 0 where
  pub job_id : String
  pub user_id : String

unfoldable pub get_job : {W : Type 0} → GetJob W → GetJobInput → Exec W Job
get_job uc input =
    if is_empty input.job_id || is_empty input.user_id
    then raise (sentinel invalid_input)
    else uc.jobs.get_for_user input.job_id input.user_id

pub record ListJobs (W : Type 0) : Type 0 where
  pub jobs : JobsRepository W

pub record ListJobsInput : Type 0 where
  pub user_id : String
  pub limit : ℤ

-- if limit <= 0 { limit = 50 }
unfoldable pub effective_limit : ℤ → ℤ
effective_limit limit = if is_positive limit then limit else pos 50

unfoldable pub list_jobs : {W : Type 0} → ListJobs W → ListJobsInput → Exec W (List Job)
list_jobs uc input =
    if is_empty input.user_id
    then raise (sentinel invalid_input)
    else uc.jobs.list_for_user input.user_id (effective_limit input.limit)
