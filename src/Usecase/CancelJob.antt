-- ===== src/Usecase/CancelJob.antt =====
-- core/usecase/cancel_job.go
pub mod Effect
pub mod Race
use agentic_delegator.Prelude.{String, ◌||◌, if◌then◌else◌}
use agentic_delegator.Prelude.Text.{is_empty}
use agentic_delegator.Domain.Errors.{sentinel, invalid_state, invalid_input}
use agentic_delegator.Domain.Job.{Job, is_terminal, mark_cancelled}
use agentic_delegator.Ports.Jobs.{JobsRepository}
use agentic_delegator.Ports.Runner.{RunnerService}
use agentic_delegator.Ports.Small.{Clock}
use agentic_delegator.Exec.{Exec, pure, raise, lift, call, ignore, ◌>>=◌, ◌>>◌}

pub record CancelJob (W C : Type 0) : Type 0 where
  pub jobs : JobsRepository W
  pub runner : RunnerService W C
  pub clock : Clock W

pub record CancelJobInput : Type 0 where
  pub job_id : String
  pub user_id : String

module _ {W C : Type 0} (uc : CancelJob W C) where
  -- if job.ContainerID != "" { _ = uc.Runner.Stop(...) }
  unfoldable pub stop_container : String → Exec W (Unit {0})
  stop_container container_id =
      if is_empty container_id then pure tt else ignore (uc.runner.stop container_id)

  unfoldable pub execute : CancelJobInput → Exec W (Unit {0})
  execute input =
      if is_empty input.job_id || is_empty input.user_id then raise (sentinel invalid_input) else do
        job ← uc.jobs.get_for_user input.job_id input.user_id
        if is_terminal job then raise (sentinel invalid_state) else do
          stop_container job.container_id
          now ← call uc.clock.now
          cancelled ← lift (mark_cancelled job now)
          uc.jobs.update cancelled
