-- ===== src/Tests/Docker.antt =====
-- The Docker adapter over a machine whose files are a function.
use agentic_delegator.Prelude.{
  String, Bool, true, false, ◌≡◌, refl, inl, inr, List, [], ◌∷◌, Option, none, some, if◌then◌else◌,
  arith, Bool-cases,
}
use agentic_delegator.Prelude.Int.{ℤ, pos}
use agentic_delegator.Prelude.Text.{◌==◌, ◌<>◌}
use agentic_delegator.Domain.Errors.{opaque, wrap, error_text}
use agentic_delegator.Domain.Credentials.{GitCreds, AnthropicCreds}
use agentic_delegator.Domain.Job.{mark_succeeded}
use agentic_delegator.Exec.{Exec, ok, err}
use agentic_delegator.Go.Path.{join_path}
use agentic_delegator.Ports.Runner.{RunnerStartSpec, RunnerResult}
use agentic_delegator.Usecase.Completion.{conclude}
use agentic_delegator.Adapter.Docker.{Config}
use agentic_delegator.Adapter.Docker.Args.{build_run_args}
use agentic_delegator.Adapter.Docker.Args.Reader.{read_run, intended, read_run-build_run_args}
use agentic_delegator.Adapter.Docker.Files.{Host, exited}
use agentic_delegator.Adapter.Docker.Start.{
  start, prepare, write_secrets, write_secret_file, or_remove, remove_each, below, RemovesOnly,
  start-docker_failed, start-write_failed,
}
use agentic_delegator.Adapter.Docker.Supervise.{wait_or_kill, save_logs, collect}
use agentic_delegator.Adapter.Docker.Supervise.Report.{lost_exit_succeeds}
use agentic_delegator.Tests.Domain.{spec, started}

abbrev Machine : Type 0
Machine = String → Option String

abbrev done : Exec Machine (Unit {0})
done w = (ok tt, w)

-- No file can be written where the disk is full; there is no docker.
abbrev host : Bool → Host Machine
host full = record {
  mkdir_all = λ p m. done;
  chmod = λ p m. done;
  remove_all = λ p w. (ok tt, λ q. if p == "" then w q else if below q p then none else w q);
  write_file = λ p c m w.
      if full then (err (opaque "disk full"), w) else (ok tt, λ q. if q == p then some c else w q);
  read_file = λ p w. (err (opaque "no such file"), w);
  open_log = λ p. done;
  docker = λ args w. (err (opaque "no docker"), w);
  docker_logs = λ c p. done;
  docker_wait = λ d c w. (exited, w);
}

host-RemovesOnly : (full : Bool) → RemovesOnly (host full) (λ w q. w q)
host-RemovesOnly full = record {
  removed = λ p q w fine named inside. ground arith;
  kept = λ p q w outside. elim (Bool-cases (p == "")) [
    | inl blank ↦ ground arith
    | inr named ↦ ground arith
  ];
  no_path = λ w. refl;
}

abbrev cfg : Config
cfg = record {
  image = "runner:latest";
  entry_override = "/bin/sh" ∷ [];
  cpus = "2";
  memory_mb = pos 2048;
  pids_limit = pos 512;
  network = "runners";
  dns = "1.1.1.1" ∷ "1.0.0.1" ∷ [];
  work_dir_host = "/work";
  max_job_duration = pos 1800;
}

-- The branch looks like an option.
abbrev job : RunnerStartSpec
job = record {
  job_id = "j_1";
  repo = "o/r";
  base_branch = "--privileged";
  work_branch = "feat";
  spec = spec;
  git_creds = record { token = "tok"; expires_at = 0 };
  anthropic = record { api_key = "sk" };
  model = "";
  log_path = "/logs/j_1.log";
}

abbrev nothing : Machine
nothing q = none

read_run-build_run_args_example :
    (read_run (build_run_args cfg job "/work/j_1" "/work/j_1.secrets")
      ≡ some (record {
        options = intended cfg job "/work/j_1" "/work/j_1.secrets";
        image = "runner:latest";
        command = "/bin/sh" ∷ [];
      }))
    × ((g : GitCreds) (a : AnthropicCreds)
        → build_run_args cfg
            (record job { git_creds = g; anthropic = a })
            "/work/j_1"
            "/work/j_1.secrets"
          ≡ build_run_args cfg job "/work/j_1" "/work/j_1.secrets")
read_run-build_run_args_example =
    read_run-build_run_args cfg job "/work/j_1" "/work/j_1.secrets" refl

abbrev run_args : List String
run_args = build_run_args cfg job "/work/j_1" "/work/j_1.secrets"

start-docker_failed_example :
    ((start (host false) cfg job nothing).0
      ≡ err (wrap (opaque "no docker") ("docker run: " <> error_text (opaque "no docker"))))
    × ((start (host false) cfg job nothing).1 "/work/j_1.secrets/gh-token" ≡ none)
unfolding prepare or_remove write_secrets write_secret_file remove_each join_path
start-docker_failed_example =
    start-docker_failed (host false) (λ w q. w q) (host-RemovesOnly false) cfg job nothing
      "/work/j_1.secrets" (opaque "no docker") refl refl refl refl refl refl
      "/work/j_1.secrets/gh-token" refl

abbrev kept_token : Machine
kept_token q = if q == "/work/j_1.secrets/gh-token" then some "tok" else none

start-write_failed_example :
    ((start (host true) cfg job kept_token).0 ≡ err (opaque "disk full"))
    × ((start (host true) cfg job kept_token).1 "/work/j_1.secrets/gh-token"
        ≡ (write_secrets (host true) "/work" "j_1" "tok" "sk" kept_token).1
            "/work/j_1.secrets/gh-token")
unfolding write_secrets write_secret_file join_path
start-write_failed_example =
    start-write_failed (host true) (λ w q. w q) (host-RemovesOnly true) cfg job kept_token
      (opaque "disk full") refl refl refl "/work/j_1.secrets/gh-token" refl

abbrev spell : ℤ → String
spell d = "30m0s"

abbrev note : RunnerResult → Exec Machine (Unit {0})
note res w = (ok tt, λ q. if q == "reported" then some res.error else w q)

lost_exit_succeeds_example :
    (res : RunnerResult) × ((collect
        (host false)
        spell
        cfg
        "c"
        "/work/j_1"
        "/work/j_1.secrets"
        "/logs/j_1.log"
        "j_1"
        nothing).0
      ≡ ok res)
    × (res.exit_code ≡ pos 0)
    × (conclude started res 20 ≡ mark_succeeded started res.pr_url 20)
unfolding wait_or_kill save_logs
lost_exit_succeeds_example =
    lost_exit_succeeds (host false) spell cfg "c" "/work/j_1" "/work/j_1.secrets" "/logs/j_1.log"
      "j_1" nothing (opaque "no docker") started 20 refl refl
