-- ===== src/Adapter/Http/Jobs.antt =====
-- core/adapter/http/jobs_handler.go
pub mod Cancel
use agentic_delegator.Prelude.{ℕ, String, Option, none, some, if◌then◌else◌}
use agentic_delegator.Prelude.Text.{◌==◌, ◌<>◌}
use agentic_delegator.Prelude.Int.{ℤ, pos, is_positive}
use agentic_delegator.Domain.Errors.{Error, error_text}
use agentic_delegator.Domain.Names.{source_of}
use agentic_delegator.Domain.Job.{Job}
use agentic_delegator.Exec.{State, Result, ok, err}
use agentic_delegator.Usecase.EnqueueJob
use agentic_delegator.Usecase.EnqueueJob.{EnqueueJob, EnqueueJobInput, EnqueueJobOutput}
use agentic_delegator.Usecase.CancelJob
use agentic_delegator.Usecase.CancelJob.{CancelJob}
use agentic_delegator.Usecase.Queries.{GetJob, ListJobs, get_job, list_jobs}
use agentic_delegator.Adapter.Http.Response.{
  Response, empty, one_job, jobs, enqueued, error_response, domain_error, respond,
}

pub record JobsHandler (W C : Type 0) : Type 0 where
  pub enqueue : EnqueueJob W C
  pub get : GetJob W
  pub list : ListJobs W
  pub cancel : CancelJob W C

-- The decoded body of POST /api/jobs
pub record EnqueueBody : Type 0 where
  pub repo : String
  pub base_branch : String
  pub work_branch : String
  pub spec_source : String
  pub source_type : String
  pub model_override : String

unfoldable pub enqueue_input : String → EnqueueBody → EnqueueJobInput
enqueue_input uid body = record {
  user_id = uid;
  repo = body.repo;
  base_branch = body.base_branch;
  work_branch = body.work_branch;
  spec = record { source_type = source_of body.source_type; value = body.spec_source };
  model_override = body.model_override;
  log_path = "";
}

abbrev pub created : EnqueueJobOutput → Response
created out = record { code = 200; body = enqueued out.job_id ("/jobs/" <> out.job_id) }

abbrev pub store_error : Error → Response
store_error e = error_response 500 (error_text e)

-- The default of ListJobs, where the query has no positive limit.
abbrev pub list_limit : Option ℤ → ℤ
list_limit none = pos 50
list_limit (some n) = if is_positive n then n else pos 50

module _ {W C : Type 0} (h : JobsHandler W C) where
  unfoldable pub cancel_job : String → String → State W Response
  cancel_job uid id =
      respond domain_error (λ x. record { code = 204; body = empty })
        (CancelJob.execute h.cancel (record { job_id = id; user_id = uid }))

  unfoldable pub enqueue_job : String → Result EnqueueBody → State W Response
  enqueue_job uid (err e) w = (error_response 400 "invalid json", w)
  enqueue_job uid (ok body) w =
      respond domain_error created (EnqueueJob.execute h.enqueue (enqueue_input uid body)) w

  unfoldable pub get_job_handler : String → String → State W Response
  get_job_handler uid id =
      respond domain_error (λ j. record { code = 200; body = one_job j })
        (get_job h.get (record { job_id = id; user_id = uid }))

  unfoldable pub list_jobs_handler : String → Option ℤ → State W Response
  list_jobs_handler uid limit =
      respond store_error (λ js. record { code = 200; body = jobs js })
        (list_jobs h.list (record { user_id = uid; limit = list_limit limit }))
