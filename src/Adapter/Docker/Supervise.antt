-- ===== src/Adapter/Docker/Supervise.antt =====
-- Runner.supervise, Inspect and Stop of core/adapter/docker/runner.go.
pub mod Report
use agentic_delegator.Prelude.{
  ℕ, String, Bool, true, false, ◌≡◌, ◌≢◌, refl, sym, ap, ◌∙◌, ◌⊎◌, inl, inr, List, [], ◌∷◌, Option,
  none, some, if◌then◌else◌, arith, eq_iff, Bool-cases, not, ◌||◌,
}
use agentic_delegator.Prelude.Int.{ℤ, pos, is_zero}
use agentic_delegator.Prelude.Text.{◌<>◌, ◌==◌, is_empty}
use agentic_delegator.Domain.Errors.{Error}
use agentic_delegator.Domain.Job.{Job, mark_succeeded, mark_failed}
use agentic_delegator.Exec.{
  Exec, State, Result, ok, err, pure, call, attempt, ignore, ◌>>=◌, ◌>>◌, Result-cases,
}
use agentic_delegator.Go.Path.{join_path}
use agentic_delegator.Go.Strings.{trim_space, scan_int}
use agentic_delegator.Ports.Runner.{RunnerResult}
use agentic_delegator.Usecase.Completion.{conclude}
use agentic_delegator.Adapter.Docker.{Config}
use agentic_delegator.Adapter.Docker.Args.{show_int}
use agentic_delegator.Adapter.Docker.Files.{
  Host, Waited, exited, wait_failed, deadline_exceeded, read_trimmed, tail_file, log_tail_bytes,
}

abbrev is_deadline : Waited → Bool
is_deadline deadline_exceeded = true
is_deadline _ = false

abbrev or_zero : Option ℤ → ℤ
or_zero none = pos 0
or_zero (some n) = n

abbrev output : Result String → String
output (ok out) = out
output (err e) = ""

-- exitCode of supervise, from what `docker inspect` answered.
unfoldable pub exit_code_of : Bool → Result String → ℤ
exit_code_of timed_out answer =
    if timed_out then pos 124 else or_zero (scan_int (trim_space (output answer)))

-- The switch that sets res.Error; `spell` prints a duration.
unfoldable pub failure_text : (ℤ → String) → Config → Bool → ℤ → String
failure_text spell cfg timed_out exit_code =
    if timed_out
    then "runner exceeded max duration " <> spell cfg.max_job_duration
    else if not (is_zero exit_code)
    then "runner exited with code " <> show_int exit_code
    else ""

module _ {W : Type 0} (host : Host W) where
  unfoldable pub wait_or_kill : Config → String → Exec W Bool
  wait_or_kill cfg container_id = do
    waited ← call (host.docker_wait cfg.max_job_duration container_id)
    stop_late (is_deadline waited)
    where
      stop_late : Bool → Exec W Bool
      stop_late true = do ignore (host.docker ("kill" ∷ container_id ∷ [])); pure true
      stop_late false = pure false

  unfoldable pub save_logs : String → String → Exec W (Unit {0})
  save_logs container_id log_path = do opened ← attempt (host.open_log log_path); copy opened
    where
      copy : Result (Unit {0}) → Exec W (Unit {0})
      copy (ok x) = ignore (host.docker_logs container_id log_path)
      copy (err e) = pure tt

  unfoldable pub exit_code : Bool → String → Exec W ℤ
  exit_code true container_id = pure (exit_code_of true (ok ""))
  exit_code false container_id = do
    answer ←
        attempt (host.docker ("inspect" ∷ "--format" ∷ "{{.State.ExitCode}}" ∷ container_id ∷ []))
    pure (exit_code_of false answer)

  unfoldable pub clear_away : String → String → String → Exec W (Unit {0})
  clear_away container_id job_dir secrets_dir = do
    ignore (host.docker ("rm" ∷ "-f" ∷ container_id ∷ []))
    ignore (host.remove_all job_dir)
    ignore (host.remove_all secrets_dir)

  unfoldable pub inspect : String → Exec W Bool
  inspect container_id = do
    answer ←
        attempt (host.docker ("inspect" ∷ "--format" ∷ "{{.State.Running}}" ∷ container_id ∷ []))
    pure (running answer)
    where
      running : Result String → Bool
      running (ok out) = trim_space out == "true"
      running (err e) = false

  unfoldable pub stop : String → Exec W (Unit {0})
  stop container_id = ignore (host.docker ("kill" ∷ container_id ∷ []))

module _ {W : Type 0} (host : Host W) (spell : ℤ → String) where
  -- Everything up to the callback.
  unfoldable pub collect : Config → String → String → String → String → String → Exec W RunnerResult
  collect cfg container_id job_dir secrets_dir log_path job_id = do
    timed_out ← wait_or_kill host cfg container_id
    save_logs host container_id log_path
    code ← exit_code host timed_out container_id
    pr ← read_trimmed host (join_path job_dir ".pr-url")
    hook ← read_trimmed host (join_path job_dir ".notification-webhook")
    log ← tail_file host log_path log_tail_bytes
    clear_away host container_id job_dir secrets_dir
    pure (record {
      job_id = job_id;
      exit_code = code;
      pr_url = pr;
      error = failure_text spell cfg timed_out code;
      notification_webhook = hook;
      log_tail = log;
    })

  abbrev report_to : Option (RunnerResult → Exec W (Unit {0})) → RunnerResult → Exec W (Unit {0})
  report_to none res = pure tt
  report_to (some on_complete) res = on_complete res

  unfoldable pub supervise :
      Config
      → String
      → String
      → String
      → String
      → String
      → Option (RunnerResult → Exec W (Unit {0}))
      → Exec W (Unit {0})
  supervise cfg container_id job_dir secrets_dir log_path job_id on_complete = do
    res ← collect cfg container_id job_dir secrets_dir log_path job_id
    report_to on_complete res
