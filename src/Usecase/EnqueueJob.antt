-- ===== src/Usecase/EnqueueJob.antt =====
-- core/usecase/enqueue_job.go. `Execute` is one function in the source; here its parts after the
-- row is created are functions of their own, called in the source's order.
pub mod Caps
pub mod Effect
pub mod Race
pub mod Credentials
use agentic_delegator.Prelude.{ℕ, String, Bool, false, not, ◌||◌, Option, if◌then◌else◌}
use agentic_delegator.Prelude.Int.{ℤ, is_positive, exceeds}
use agentic_delegator.Prelude.Text.{◌<>◌, is_empty}
use agentic_delegator.Go.Path.{join_path}
use agentic_delegator.Domain.Errors.{
  Error, sentinel, wrap, not_found, invalid_input, is_error, error_text,
}
use agentic_delegator.Domain.Spec.{SpecSource, valid}
use agentic_delegator.Domain.Credentials.{GitCreds, AnthropicCreds}
use agentic_delegator.Domain.Job.{Job, JobStatus, new_job, mark_running, mark_failed}
use agentic_delegator.Ports.Jobs.{JobsRepository}
use agentic_delegator.Ports.Runner.{RunnerService, RunnerStartSpec}
use agentic_delegator.Ports.Small.{
  Clock, IdGenerator, RepoCredentialsProvider, AnthropicCredentialsProvider,
}
use agentic_delegator.Exec.{
  Exec, Result, ok, err, pure, raise, lift, call, attempt, ignore, ◌>>=◌, ◌>>◌,
}

pub record EnqueueJob (W C : Type 0) : Type 0 where
  pub jobs : JobsRepository W
  pub repo_creds : RepoCredentialsProvider W
  pub anthropic_creds : AnthropicCredentialsProvider W
  pub runner : RunnerService W C
  pub id_gen : IdGenerator W
  pub clock : Clock W
  pub log_dir : String
  pub max_concurrent_per_user : ℤ
  pub max_concurrent_global : ℤ
  pub on_complete : Option C

pub record EnqueueJobInput : Type 0 where
  pub user_id : String
  pub repo : String
  pub base_branch : String
  pub work_branch : String
  pub spec : SpecSource
  pub model_override : String
  pub log_path : String

pub record EnqueueJobOutput : Type 0 where
  pub job_id : String
  pub status : JobStatus

-- The job that a method made, or, where its error is thrown away, the job as it was.
abbrev pub or_same : Result Job → Job → Job
or_same (ok k) j = k
or_same (err e) j = j

-- A missing credential is turned into invalid input; any other error stays.
abbrev pub reword {ℓ} : {A : Type ℓ} → String → Result A → Result A
reword m (ok a) = ok a
reword m (err e) = if is_error e not_found then err (wrap (sentinel invalid_input) m) else err e

unfoldable pub rejects : EnqueueJobInput → Bool
rejects input =
    is_empty input.user_id
    || is_empty input.repo
    || is_empty input.base_branch
    || is_empty input.work_branch
    || not (valid input.spec)

abbrev pub output : Job → EnqueueJobOutput
output job = record { job_id = job.id; status = job.status }

module _ {W C : Type 0} (uc : EnqueueJob W C) where
  unfoldable pub build_job : EnqueueJobInput → String → ℕ → Job
  unfolding new_job
  build_job input id now =
      let job =
        new_job id input.user_id input.repo input.base_branch input.work_branch input.spec
          input.model_override now in
      record job {
        log_path =
            if is_empty input.log_path then join_path uc.log_dir (id <> ".log") else input.log_path;
      }

  unfoldable pub start_spec : EnqueueJobInput → Job → GitCreds → AnthropicCreds → RunnerStartSpec
  start_spec input job git_creds anthropic = record {
    job_id = job.id;
    repo = input.repo;
    base_branch = input.base_branch;
    work_branch = input.work_branch;
    spec = input.spec;
    git_creds = git_creds;
    anthropic = anthropic;
    model = input.model_override;
    log_path = input.log_path;
  }

  unfoldable pub at_user_cap : String → Exec W Bool
  at_user_cap user =
      if is_positive uc.max_concurrent_per_user
      then (do n ← uc.jobs.count_active_for_user user; pure (exceeds n uc.max_concurrent_per_user))
      else pure false

  unfoldable pub at_global_cap : Exec W Bool
  at_global_cap =
      if is_positive uc.max_concurrent_global
      then (do n ← uc.jobs.count_active_global; pure (exceeds n uc.max_concurrent_global))
      else pure false

  unfoldable pub repo_creds_for : EnqueueJobInput → Exec W GitCreds
  repo_creds_for input w =
      let (r, w') = uc.repo_creds.for_repo input.user_id input.repo w in
      (
        reword
            ("invalid input: repository credentials not available (is the GitHub App installed on "
              <> (input.repo <> "?)"))
            r,
        w',
      )

  unfoldable pub anthropic_creds_for : EnqueueJobInput → Exec W AnthropicCreds
  anthropic_creds_for input w =
      let (r, w') = uc.anthropic_creds.for_user input.user_id w in
      (reword "invalid input: Anthropic API key not configured" r, w')

  -- What follows `uc.Runner.Start`, for each of its outcomes.
  unfoldable pub settle : Job → Result String → Exec W EnqueueJobOutput
  settle job (err start_err) = do
    now ← call uc.clock.now
    ignore (uc.jobs.update (or_same (mark_failed job (error_text start_err) now) job))
    raise start_err
  settle job (ok container_id) = do
    now ← call uc.clock.now
    running ← lift (mark_running job container_id now)
    uc.jobs.update running
    pure (output running)

  unfoldable pub launch : EnqueueJobInput → Job → Exec W EnqueueJobOutput
  launch input job = do
    git_creds ← repo_creds_for input
    anthropic ← anthropic_creds_for input
    started ← attempt (uc.runner.start (start_spec input job git_creds anthropic) uc.on_complete)
    settle job started

  unfoldable pub admit : EnqueueJobInput → Job → Exec W EnqueueJobOutput
  admit input job = do
    user_full ← at_user_cap input.user_id
    if user_full then pure (output job) else do
      global_full ← at_global_cap
      if global_full then pure (output job) else launch input job

  unfoldable pub execute : EnqueueJobInput → Exec W EnqueueJobOutput
  execute input = if rejects input then raise (sentinel invalid_input) else do
    now ← call uc.clock.now
    id ← call uc.id_gen.new_job_id
    let job = build_job input id now
    uc.jobs.create job
    admit input job
