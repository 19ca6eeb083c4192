-- ===== src/Adapter/Docker/Runner.antt =====
-- core/adapter/docker/runner.go: New, and the runner as the port that the use cases take.
use agentic_delegator.Prelude.{String, Option}
use agentic_delegator.Prelude.Int.{ℤ}
use agentic_delegator.Prelude.Text.{◌<>◌}
use agentic_delegator.Exec.{Exec, State, pure, call, ignore, ◌>>=◌, ◌>>◌}
use agentic_delegator.Go.Path.{join_path}
use agentic_delegator.Ports.Runner.{RunnerStartSpec, RunnerResult, RunnerService}
use agentic_delegator.Adapter.Docker.{Config, with_defaults}
use agentic_delegator.Adapter.Docker.Files.{Host}
use agentic_delegator.Adapter.Docker.Start
use agentic_delegator.Adapter.Docker.Supervise.{supervise, inspect, stop}

-- What the runner is told to call when a container is over.
abbrev pub Callback : Type 0 → Type 0
Callback W = RunnerResult → Exec W (Unit {0})

-- The configuration that the runner keeps; the errors on its directory are ignored.
unfoldable pub new_runner : {W : Type 0} → Host W → String → Config → Exec W Config
new_runner host temp_dir cfg =
    let full = with_defaults temp_dir cfg in
    do
      ignore (host.mkdir_all full.work_dir_host 0o700)
      ignore (host.chmod full.work_dir_host 0o700)
      pure full

-- `spawn` is the go statement; `spell` prints a duration.
module _ {W : Type 0} (host : Host W) (spell : ℤ → String)
    (spawn : Exec W (Unit {0}) → State W (Unit {0})) (cfg : Config) where
  abbrev pub goroutine : RunnerStartSpec → Option (Callback W) → String → Exec W (Unit {0})
  goroutine spec on_complete container_id =
      supervise host spell cfg container_id (join_path cfg.work_dir_host spec.job_id)
        (join_path cfg.work_dir_host (spec.job_id <> ".secrets")) spec.log_path spec.job_id
        on_complete

  unfoldable pub start_supervised : RunnerStartSpec → Option (Callback W) → Exec W String
  start_supervised spec on_complete = do
    container_id ← Start.start host cfg spec
    call (spawn (goroutine spec on_complete container_id))
    pure container_id

  abbrev pub runner_service : RunnerService W (Callback W)
  runner_service = record { start = start_supervised; inspect = inspect host; stop = stop host }
