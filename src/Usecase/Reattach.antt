-- ===== src/Usecase/Reattach.antt =====
-- core/usecase/reattach_running_jobs.go
pub mod Effect
use agentic_delegator.Prelude.{ℕ, Bool, List, [], ◌∷◌, if◌then◌else◌}
use agentic_delegator.Domain.Job.{Job, running, mark_failed}
use agentic_delegator.Ports.Jobs.{JobsRepository}
use agentic_delegator.Ports.Runner.{RunnerService}
use agentic_delegator.Ports.Small.{Clock}
use agentic_delegator.Usecase.EnqueueJob.{or_same}
use agentic_delegator.Exec.{Exec, pure, call, ◌>>=◌, ◌>>◌}

pub record ReattachRunningJobs (W C : Type 0) : Type 0 where
  pub jobs : JobsRepository W
  pub runner : RunnerService W C
  pub clock : Clock W

-- _ = j.MarkFailed("api restarted while runner container gone", now)
unfoldable pub give_up : ℕ → Job → Job
give_up now j = or_same (mark_failed j "api restarted while runner container gone" now) j

module _ {W C : Type 0} (uc : ReattachRunningJobs W C) where
  -- the loop over `running`
  unfoldable pub check_each : ℕ → List Job → Exec W (Unit {0})
  check_each now [] = pure tt
  check_each now (j ∷ js) =
      let rest = check_each now js in
      do
        alive ← uc.runner.inspect j.container_id
        if alive then rest else do uc.jobs.update (give_up now j); rest

  unfoldable pub execute : Exec W (Unit {0})
  execute = do js ← uc.jobs.list_by_status running; now ← call uc.clock.now; check_each now js
