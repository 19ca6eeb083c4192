-- ===== src/Adapter/Docker.antt =====
-- core/adapter/docker: jobs as containers. `New` and the configuration stand here.
pub mod Startup
pub mod Args
pub mod Files
pub mod Start
pub mod Supervise
pub mod Runner
use agentic_delegator.Prelude.{ℕ, String, List, if◌then◌else◌}
use agentic_delegator.Prelude.Int.{ℤ, pos, is_zero}
use agentic_delegator.Prelude.Text.{is_empty}
use agentic_delegator.Go.Path.{join_path}

-- A duration is a number of nanoseconds.
pub record Config : Type 0 where
  pub image : String
  pub entry_override : List String
  pub cpus : String
  pub memory_mb : ℤ
  pub pids_limit : ℤ
  pub network : String
  pub dns : List String
  pub work_dir_host : String
  pub max_job_duration : ℤ

-- The defaults of New. `temp_dir` is os.TempDir.
unfoldable pub with_defaults : String → Config → Config
with_defaults temp_dir cfg = record cfg {
  work_dir_host =
      if is_empty cfg.work_dir_host
      then join_path temp_dir "agentic-delegator"
      else cfg.work_dir_host;
  pids_limit = if is_zero cfg.pids_limit then pos 512 else cfg.pids_limit;
  max_job_duration =
      if is_zero cfg.max_job_duration then pos 1800000000000 else cfg.max_job_duration;
}
