-- ===== src/Cmd/Startup.antt =====
-- The part of runServe of cmd/agentic-delegator/main.go that looks after the jobs of an earlier
-- run: reattach, then the sweep of secrets. Errors are logged only.
pub mod Quiet
use agentic_delegator.Prelude.{String, ◌≡◌, ◌≢◌, inl, inr, List, [], map, mem-map, some}
use agentic_delegator.Domain.Job.{Job, running}
use agentic_delegator.Exec.{State, Result, ok, err}
use agentic_delegator.Ports.Jobs.{JobsRepository, JobsContract, Table}
use agentic_delegator.Usecase.Reattach
use agentic_delegator.Usecase.Reattach.{ReattachRunningJobs}
use agentic_delegator.Adapter.Docker.Startup.{Sweeper, job_of, sweep_orphan_secrets}
use agentic_delegator.Adapter.Docker.Startup.Sweep.{sweep_orphan_secrets-spares}

abbrev pub job_id : Job → String
job_id j = j.id

module _ {W : Type 0} (jobs : JobsRepository W) (m : Sweeper W) (work_dir : String) where
  abbrev keep_running : Result (List Job) → State W (List String)
  keep_running (ok js) w = sweep_orphan_secrets m work_dir (map job_id js) w
  keep_running (err e) w = ([], w)

  unfoldable pub sweep_at_start : State W (List String)
  sweep_at_start w = let (r, w') = jobs.list_by_status running w in keep_running r w'

  unfoldable pub recover : {C : Type 0} → ReattachRunningJobs W C → State W (List String)
  recover uc w = sweep_at_start (Reattach.execute uc w).1

  -- Over a jobs repository that keeps its contract:
  -- where the row of a job says that it runs once the reattaching is done, the start of the program
  -- loses nothing of what the machine has for the job: what holds then, and is not lost by looking at
  -- the directories or by removing one of another job, holds after the sweep.
  pub recover-spares :
      {C : Type 0} (uc : ReattachRunningJobs W C) (rows : W → Table)
      (contract : JobsContract jobs rows) (j : Job) (Holds : W → Type 0)
      → ((dir : String) (w : W) → job_of dir ≢ j.id → Holds w → Holds (m.remove_all dir w).1)
      → ((pattern : String) (w : W) → Holds w → Holds (m.glob pattern w).1)
      → (w : W) → rows (Reattach.execute uc w).1 j.id ≡ some j
      → j.status ≡ running
      → Holds (Reattach.execute uc w).1
      → Holds (recover uc w).1
  unfolding recover sweep_at_start
  recover-spares uc rows contract j Holds others looks w there runs h =
      let w1 : W = (Reattach.execute uc w).1 in
      elim (contract.list_by_status_lem running w1) [
        | inr (e, broken) ↦ rw broken h
        | inl (js, listed, sound, complete) ↦ rw listed (
            sweep_orphan_secrets-spares m j.id Holds others looks work_dir (map job_id js) w1
              (mem-map job_id j js (complete j.id j there runs)) h)
      ]
