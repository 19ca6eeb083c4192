-- ===== src/Cmd/Serve/Concluded.antt =====
-- From the end of a container to the row of its job, through the parts as runServe wires them.
use agentic_delegator.Prelude.{String, ◌≡◌, refl, ap, ◌∙◌, ◌⊎◌, inl, inr, Option, some, string_eq}
use agentic_delegator.Prelude.Int.{is_zero}
use agentic_delegator.Prelude.Text.{is_empty, ◌<>◌}
use agentic_delegator.Domain.Errors.{Error}
use agentic_delegator.Exec.{ok, err}
use agentic_delegator.Config
use agentic_delegator.Go.Path.{join_path}
use agentic_delegator.Ports.Quiet.{Quiet}
use agentic_delegator.Ports.Runner.{RunnerStartSpec, RunnerResult}
use agentic_delegator.Usecase.Completion
use agentic_delegator.Usecase.Completion.Effect.{completion_effect, Recorded}
use agentic_delegator.Adapter.Crypto.{Aead}
use agentic_delegator.Adapter.Docker
use agentic_delegator.Adapter.Docker.Runner.{goroutine}
use agentic_delegator.Adapter.Docker.Supervise.Report.{TellsExit, supervise_reports}
use agentic_delegator.Adapter.Docker.Supervise.{collect}
use agentic_delegator.Adapter.Postgres.Jobs.Laws.{row_id, jobs_of, jobs_repo-JobsContract}
use agentic_delegator.Adapter.Postgres.Models.{JobRow}
use agentic_delegator.Adapter.Postgres.Table.{IsTable}
use agentic_delegator.Cmd.Platform.{Database, Reading, Platform}
use agentic_delegator.Cmd.Serve.{complete, on_complete, hooks}

module _ {W T R : Type 0} (p : Platform W T) (db : Database W) (reading : Reading R)
    (cfg : Config.Config) (aes : Aead) (docker : Docker.Config) (rows : W → String → Option JobRow)
    (table : IsTable db.jobs row_id rows)
    (hook_quiet : (url body : String)
      → Quiet
          (jobs_of db.jobs rows table)
          ((hooks p db reading cfg aes docker).dispatch url body)) where
  -- Over a jobs table that keeps what SQL promises, where nothing else writes to it while the webhook
  -- is sent: the goroutine of every container that was started collects one result, and what it does
  -- besides is to execute one completion with that result, without an error. The result is about the
  -- job of the container; its exit code is 124, with the error of a timeout, where the deadline
  -- passed, and otherwise the number that `docker inspect` answered, where it answered one; and it
  -- has an error exactly where its exit code is not zero. The completion is recorded in the row of
  -- the job, as succeeded or failed by the exit code, or it is refused or the store fails, and no row
  -- changes.
  pub goroutine-concludes :
      (spec : RunnerStartSpec) (container_id : String) (w : W)
      → let run =
          goroutine p.host p.spell p.spawn docker spec
            (some (on_complete p db reading cfg aes docker))
            container_id
            w in
        let jobs = jobs_of db.jobs rows table in
        let uc = complete p db reading cfg aes docker in
        (res : RunnerResult) × (v : W) × (collect p.host p.spell docker container_id
            (join_path docker.work_dir_host spec.job_id)
            (join_path docker.work_dir_host (spec.job_id <> ".secrets"))
            spec.log_path
            spec.job_id
            w
          ≡ (ok res, v))
        × (res.job_id ≡ spec.job_id)
        × TellsExit p.host p.spell docker container_id spec.log_path w res
        × (is_empty res.error ≡ is_zero res.exit_code)
        × (run ≡ (ok tt, (Completion.execute p.marshal_completion uc res v).1))
        × (Recorded p.marshal_completion uc jobs res v
            ⊎ ((e : Error) × ((Completion.execute p.marshal_completion uc res v).0 ≡ err e)
                × (jobs run.1 ≡ jobs v)))
  unfolding on_complete
  goroutine-concludes spec container_id w =
      let jobs = jobs_of db.jobs rows table in
      let uc = complete p db reading cfg aes docker in
      let (res, v, collected, reported, about, text, tells) =
        supervise_reports p.host p.spell docker container_id
          (join_path docker.work_dir_host spec.job_id)
          (join_path docker.work_dir_host (spec.job_id <> ".secrets")) spec.log_path spec.job_id
          (on_complete p db reading cfg aes docker) w in
      (
        res,
        v,
        collected,
        about,
        tells,
        text,
        reported,
        elim (completion_effect p.marshal_completion uc jobs
            (jobs_repo-JobsContract db.jobs rows table) (λ u. refl) hook_quiet res v) [
              | inl recorded ↦ inl recorded
              | inr (e, failed, same) ↦ inr (e, failed, ap (λ r. jobs r.1) reported ∙ same)
            ],
      )
