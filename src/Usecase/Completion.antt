-- ===== src/Usecase/Completion.antt =====
-- core/usecase/handle_runner_completion.go and core/usecase/dispatch_completion_webhook.go
pub mod Effect
use agentic_delegator.Prelude.{ℕ, String, Bool, ◌||◌, Option, none, some, if◌then◌else◌}
use agentic_delegator.Prelude.Int.{is_zero}
use agentic_delegator.Prelude.Text.{is_empty}
use agentic_delegator.Domain.Errors.{sentinel, invalid_input}
use agentic_delegator.Domain.Job.{Job, mark_succeeded, mark_failed}
use agentic_delegator.Ports.Jobs.{JobsRepository}
use agentic_delegator.Ports.Runner.{RunnerResult}
use agentic_delegator.Ports.Small.{Clock, WebhookDispatcher}
use agentic_delegator.Exec.{Exec, Result, pure, raise, lift, call, ignore, ◌>>=◌, ◌>>◌}

pub record DispatchCompletionWebhook (W : Type 0) : Type 0 where
  pub dispatcher : WebhookDispatcher W

pub record DispatchCompletionWebhookInput : Type 0 where
  pub url : String
  pub job : Option Job
  pub log_tail : String

-- The map that is marshalled: its "event", "job" and "log_tail".
pub record CompletionPayload : Type 0 where
  pub event : String
  pub job : Job
  pub log_tail : String

pub record HandleRunnerCompletion (W : Type 0) : Type 0 where
  pub jobs : JobsRepository W
  pub clock : Clock W
  pub webhook : Option (DispatchCompletionWebhook W)

-- The branch on `res.ExitCode`.
unfoldable pub conclude : Job → RunnerResult → ℕ → Result Job
conclude job res now =
    if is_zero res.exit_code
    then mark_succeeded job res.pr_url now
    else mark_failed job
        (if is_empty res.error then "runner exited with non-zero code" else res.error) now

-- `marshal` is json.Marshal on the payload.
module _ {W : Type 0} (marshal : CompletionPayload → Result String) where
  unfoldable pub dispatch_job :
      DispatchCompletionWebhook W → String → String → Option Job → Exec W (Unit {0})
  dispatch_job uc url log_tail none = raise (sentinel invalid_input)
  dispatch_job uc url log_tail (some job) = do
    body ← lift (marshal (record { event = "job.completed"; job = job; log_tail = log_tail }))
    uc.dispatcher.dispatch url body

  unfoldable pub dispatch :
      DispatchCompletionWebhook W → DispatchCompletionWebhookInput → Exec W (Unit {0})
  unfolding dispatch_job
  dispatch uc input =
      if is_empty input.url then pure tt else dispatch_job uc input.url input.log_tail input.job

  -- if uc.Webhook != nil && res.NotificationWebhook != "" { _ = uc.Webhook.Execute(...) }
  unfoldable pub notify :
      Option (DispatchCompletionWebhook W) → RunnerResult → Job → Exec W (Unit {0})
  notify none res job = pure tt
  notify (some hook) res job =
      if is_empty res.notification_webhook
      then pure tt
      else ignore (
          dispatch hook
            (record { url = res.notification_webhook; job = some job; log_tail = res.log_tail }))

  unfoldable pub execute : HandleRunnerCompletion W → RunnerResult → Exec W (Unit {0})
  execute uc res = if is_empty res.job_id then raise (sentinel invalid_input) else do
    job ← uc.jobs.get res.job_id
    now ← call uc.clock.now
    done ← lift (conclude job res now)
    uc.jobs.update done
    notify uc.webhook res done
