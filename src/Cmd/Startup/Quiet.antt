-- ===== src/Cmd/Startup/Quiet.antt =====
-- The sweep at the start leaves the jobs alone where the machine does.
use agentic_delegator.Prelude.{
  map, String, refl, ◌∙◌, inl, inr, List, [], ◌∷◌, Bool-cases, string_eq,
}
use agentic_delegator.Domain.Job.{running}
use agentic_delegator.Ports.Jobs.{Table, JobsRepository, JobsContract}
use agentic_delegator.Ports.Quiet.{Quiet}
use agentic_delegator.Adapter.Docker.Startup.{
  Sweeper, sweep_each, sweep_orphan_secrets, is_kept, job_of,
}
use agentic_delegator.Cmd.Serve.{jobs}
use agentic_delegator.Cmd.Startup.{sweep_at_start, job_id}

module _ {W B : Type 0} (m : Sweeper W) (view : W → B)
    (remove_quiet : (dir : String) → Quiet view (m.remove_all dir))
    (glob_quiet : (pattern : String) → Quiet view (m.glob pattern)) where
  sweep_each-Quiet : (alive dirs : List String) → Quiet view (sweep_each m alive dirs)
  unfolding sweep_each
  sweep_each-Quiet alive [] w = refl
  sweep_each-Quiet alive (dir ∷ dirs) w = elim (Bool-cases (is_kept alive (job_of dir))) [
    | inl kept ↦ rw kept (sweep_each-Quiet alive dirs w)
    | inr orphan ↦
        rw orphan (sweep_each-Quiet alive dirs (m.remove_all dir w).1 ∙ remove_quiet dir w)
  ]

  sweep_orphan_secrets-Quiet :
      (work_dir : String) (alive : List String) → Quiet view (sweep_orphan_secrets m work_dir alive)
  unfolding sweep_orphan_secrets
  sweep_orphan_secrets-Quiet work_dir alive w =
      sweep_each-Quiet alive (m.glob _ w).0 (m.glob _ w).1 ∙ glob_quiet _ w

  pub sweep_at_start-Quiet :
      (jobs : JobsRepository W) (rows : W → Table) (work_dir : String)
      → JobsContract jobs rows
      → Quiet view (sweep_at_start jobs m work_dir)
  unfolding sweep_at_start
  sweep_at_start-Quiet jobs rows work_dir contract w =
      elim (contract.list_by_status_lem running w) [
        | inl (js, listed, sound, complete) ↦
            rw listed (sweep_orphan_secrets-Quiet work_dir (map job_id js) w)
        | inr (e, broken) ↦ rw broken refl
      ]
