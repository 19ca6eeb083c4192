-- ===== src/Adapter/Docker/Startup.antt =====
-- SweepOrphanSecrets of core/adapter/docker/secrets.go and core/adapter/docker/network.go: what the
-- program asks of the machine before it serves.
pub mod Sweep
use agentic_delegator.Prelude.{String, Bool, true, false, List, [], ◌∷◌, if◌then◌else◌}
use agentic_delegator.Prelude.Text.{◌==◌, ◌<>◌, is_empty}
use agentic_delegator.Go.Path.{base, join_path}
use agentic_delegator.Go.Strings.{trim_suffix}
use agentic_delegator.Domain.Errors.{Error, wrap, error_text}
use agentic_delegator.Exec.{Exec, State, Result, ok, err, pure}

-- `glob` is filepath.Glob, its error ignored.
pub record Sweeper (W : Type 0) : Type 0 where
  pub glob : String → State W (List String)
  pub remove_all : String → Exec W (Unit {0})

-- running[jobID]
unfoldable pub is_kept : List String → String → Bool
is_kept [] id = false
is_kept (k ∷ ks) id = let rest = is_kept ks id in if k == id then true else rest

abbrev removed_one : Result (Unit {0}) → String → List String → List String
removed_one (ok x) dir rest = dir ∷ rest
removed_one (err e) dir rest = rest

-- The job of a secrets directory.
unfoldable pub job_of : String → String
job_of dir = trim_suffix (base dir) ".secrets"

module _ {W : Type 0} (m : Sweeper W) where
  -- the loop over `matches`
  unfoldable pub sweep_each : List String → List String → State W (List String)
  sweep_each running [] w = ([], w)
  sweep_each running (dir ∷ dirs) w =
      let spared = sweep_each running dirs w in
      let (r, w') = m.remove_all dir w in
      let (rest, w'') = sweep_each running dirs w' in
      if is_kept running (job_of dir) then spared else (removed_one r dir rest, w'')

  unfoldable pub sweep_orphan_secrets : String → List String → State W (List String)
  sweep_orphan_secrets work_dir running w =
      let (dirs, w') = m.glob (join_path work_dir "*.secrets") w in sweep_each running dirs w'

abbrev missing_network : {W : Type 0} → String → Exec W (Unit {0}) → Exec W (Unit {0})
missing_network name inspect w = let (r, w') = inspect w in (told r, w')
  where
    told : Result (Unit {0}) → Result (Unit {0})
    told (ok x) = ok x
    told (err e) = err (
        wrap e (
          "runner network \""
          <> name
          <> "\" not found — create it (see deploy/firewall) or unset AGENTIC_RUNNER_NETWORK: "
          <> error_text e))

-- `inspect` is `docker network inspect`.
unfoldable pub check_network :
    {W : Type 0} → String → (String → Exec W (Unit {0})) → Exec W (Unit {0})
check_network name inspect w =
    if is_empty name then (ok tt, w) else missing_network name (inspect name) w
