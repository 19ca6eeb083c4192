-- ===== src/Adapter/Docker/Args.antt =====
-- buildRunArgs of core/adapter/docker/runner.go.
pub mod Reader
use text.Mathlib.Text.{starts_with}
use agentic_delegator.Prelude.{
  suc, String, Bool, true, false, ◌≡◌, refl, ap, ◌∙◌, eq_iff, append-nil, ◌||◌, inl, inr, List, [],
  ◌∷◌, ◌++◌, Option, none, some, if◌then◌else◌, Bool-cases, arith,
}
use agentic_delegator.Prelude.Int.{ℤ, pos, negsuc, is_positive}
use agentic_delegator.Prelude.Text.{◌<>◌, ◌==◌, is_empty}
use agentic_delegator.Go.Decimal.{decimal}
use agentic_delegator.Domain.Names.{source_text}
use agentic_delegator.Domain.Credentials.{GitCreds, AnthropicCreds}
use agentic_delegator.Ports.Runner.{RunnerStartSpec}
use agentic_delegator.Adapter.Docker.{Config}

abbrev pub secrets_mount_path : String
secrets_mount_path = "/run/delegator-secrets"

-- %d
unfoldable pub show_int : ℤ → String
show_int (pos n) = decimal n
show_int (negsuc n) = "-" <> decimal (suc n)

unfoldable pub dns_args : List String → List String
dns_args [] = []
dns_args (d ∷ ds) = "--dns" ∷ d ∷ dns_args ds

unfoldable pub limit_args : Config → List String
limit_args cfg =
    (if is_empty cfg.cpus then [] else "--cpus" ∷ cfg.cpus ∷ [])
    ++ (if is_positive cfg.memory_mb then "--memory" ∷ (show_int cfg.memory_mb <> "m") ∷ [] else [])

unfoldable pub network_args : Config → List String
network_args cfg = if is_empty cfg.network then [] else "--network" ∷ cfg.network ∷ dns_args cfg.dns

unfoldable pub build_run_args : Config → RunnerStartSpec → String → String → List String
build_run_args cfg spec job_dir secrets_dir =
    "run"
    ∷ "-d"
    ∷ "--cap-drop=ALL"
    ∷ "--security-opt"
    ∷ "no-new-privileges"
    ∷ "--pids-limit"
    ∷ show_int cfg.pids_limit
    ∷ "-e"
    ∷ ("JOB_ID=" <> spec.job_id)
    ∷ "-e"
    ∷ ("REPO=" <> spec.repo)
    ∷ "-e"
    ∷ ("BASE_BRANCH=" <> spec.base_branch)
    ∷ "-e"
    ∷ ("WORK_BRANCH=" <> spec.work_branch)
    ∷ "-e"
    ∷ ("MODEL_OVERRIDE=" <> spec.model)
    ∷ "-e"
    ∷ ("SPEC_TYPE=" <> source_text spec.spec.source_type)
    ∷ "-e"
    ∷ ("SPEC_VALUE=" <> spec.spec.value)
    ∷ "-v"
    ∷ (job_dir <> ":/workspace")
    ∷ "-v"
    ∷ (secrets_dir <> ":" <> secrets_mount_path <> ":ro")
    ∷ (limit_args cfg ++ (network_args cfg ++ (cfg.image ∷ cfg.entry_override)))
