-- ===== src/Tests/Usecase.antt =====
-- The use cases over the in-memory adapters.
use agentic_delegator.Prelude.{
  string_eq, ℕ, String, Bool, true, ◌≡◌, ◌≢◌, refl, ◌⊎◌, inl, some, none, [], ◌∷◌, arith, eq_iff,
  ◌↔◌,
}
use agentic_delegator.Prelude.Int.{pos}
use agentic_delegator.Domain.Errors.{
  Error, sentinel, opaque, not_found, invalid_state, invalid_input,
}
use agentic_delegator.Domain.Job.{Job, JobStatus, queued, running, succeeded, failed, is_terminal}
use agentic_delegator.Domain.Job.Lifecycle.{Reach}
use agentic_delegator.Ports.Jobs.{Answers}
use agentic_delegator.Ports.Runner.{RunnerResult}
use agentic_delegator.Exec.{ok, err, Result}
use agentic_delegator.Testutil.World.Wired
use agentic_delegator.Testutil.World.Wired.{World, new_world, jobs-JobsContract}
use agentic_delegator.Testutil.FakeJobs
use agentic_delegator.Testutil.FakeRunner
use agentic_delegator.Testutil.FakeRunner.{or_false}
use agentic_delegator.Testutil.FakeSmall
use agentic_delegator.Go.Map
use agentic_delegator.Go.Path.{join_path}
use agentic_delegator.Go.Decimal.{decimal}
use agentic_delegator.Usecase.CancelJob
use agentic_delegator.Usecase.CancelJob.{CancelJobInput}
use agentic_delegator.Usecase.CancelJob.Effect.{cancel_effect, cancel_foreign, Cancelled, Refused}
use agentic_delegator.Usecase.EnqueueJob
use agentic_delegator.Usecase.EnqueueJob.{EnqueueJobInput, EnqueueJobOutput}
use agentic_delegator.Usecase.EnqueueJob.Effect.{enqueue_effect, Stored}
use agentic_delegator.Usecase.EnqueueJob.Race.{start_overwrites, log_path-start_spec}
use agentic_delegator.Usecase.Completion
use agentic_delegator.Usecase.Completion.{CompletionPayload}
use agentic_delegator.Usecase.Completion.Effect.{completion_effect, completion_refused, Recorded}
use agentic_delegator.Usecase.Reattach
use agentic_delegator.Usecase.Reattach.Effect.{reattach_effect, Swept, sweep}
use agentic_delegator.Domain.Spec
use agentic_delegator.Domain.Job
use agentic_delegator.Tests.Domain.{spec, fresh, started, broken}

abbrev pub marshal : CompletionPayload → Result String
marshal p = ok p.event

abbrev pub submission : EnqueueJobInput
submission = record {
  user_id = "u_1";
  repo = "o/r";
  base_branch = "main";
  work_branch = "feat";
  spec = spec;
  model_override = "";
  log_path = "";
}

-- One job of user u_1 is stored, in the state given.
abbrev pub holding : Job → World
holding j = record (new_world 100) { jobs = j ∷ [] }

-- A submission starts a container, and stores a log path that the runner is not told.
enqueue_runs :
    let r = EnqueueJob.execute Wired.enqueue submission (new_world 10) in
    (r.0 ≡ ok (record { job_id = "j_1"; status = running }))
    × (Map.get "ctr_1" (r.1).runner.alive ≡ some true)
unfolding EnqueueJob.execute EnqueueJob.rejects EnqueueJob.admit EnqueueJob.at_user_cap
    EnqueueJob.at_global_cap EnqueueJob.launch EnqueueJob.settle EnqueueJob.build_job
    EnqueueJob.start_spec EnqueueJob.repo_creds_for EnqueueJob.anthropic_creds_for join_path decimal
    FakeJobs.create FakeJobs.update FakeJobs.count_active_for_user FakeJobs.count_active_global
    FakeRunner.start FakeSmall.now FakeSmall.new_job_id FakeSmall.git_creds_for
    FakeSmall.anthropic_creds_for Map.lookup Map.insert Map.values Spec.valid Job.mark_running
enqueue_runs = (refl, refl)

abbrev pub mine : CancelJobInput
mine = record { job_id = "j_1"; user_id = "u_1" }

abbrev theirs : CancelJobInput
theirs = record { job_id = "j_1"; user_id = "u_2" }

cancel_effect_example :
    Cancelled Wired.cancel Wired.rows mine (holding fresh)
    ⊎ Refused Wired.cancel Wired.rows mine (holding fresh)
unfolding FakeRunner.stop FakeSmall.now
cancel_effect_example =
    cancel_effect Wired.cancel Wired.rows jobs-JobsContract (λ c w. refl) (λ w. refl) mine
      (holding fresh)

cancel_foreign_example :
    Answers
      (CancelJob.execute Wired.cancel theirs (holding fresh))
      (err (sentinel not_found))
      (holding fresh)
unfolding FakeRunner.stop FakeSmall.now Map.lookup
cancel_foreign_example =
    cancel_foreign Wired.cancel Wired.rows jobs-JobsContract (λ c w. refl) (λ w. refl) theirs
      (holding fresh) refl refl (λ j there same. absurd (ground (arith, eq_iff "u_1" "u_2")))

enqueue_effect_example :
    ((EnqueueJob.rejects submission ≡ true)
      × (EnqueueJob.execute Wired.enqueue submission (holding broken)
          ≡ (err (sentinel invalid_input), holding broken)))
    ⊎ ((e : Error) × ((EnqueueJob.execute Wired.enqueue submission (holding broken)).0 ≡ err e)
        × (Wired.rows (EnqueueJob.execute Wired.enqueue submission (holding broken)).1
            ≡ Wired.rows (holding broken)))
    ⊎ ((id : String) × (now : ℕ) × (Wired.rows (holding broken) id ≡ none)
        × Stored Wired.rows
            (Wired.rows (holding broken))
            (EnqueueJob.build_job Wired.enqueue submission id now)
            (EnqueueJob.execute Wired.enqueue submission (holding broken)))
unfolding FakeSmall.now FakeSmall.new_job_id FakeSmall.git_creds_for FakeSmall.anthropic_creds_for
    FakeRunner.start
enqueue_effect_example =
    enqueue_effect Wired.enqueue Wired.rows jobs-JobsContract (λ w. refl) (λ w. refl)
      (λ u r w. refl) (λ u w. refl) (λ s c w. refl) submission (holding broken)

log_path-start_spec_example :
    ((EnqueueJob.start_spec Wired.enqueue submission
        (EnqueueJob.build_job Wired.enqueue submission "j_1" 10)
        (record { token = "t"; expires_at = 0 })
        (record { api_key = "k" })).log_path
      ≡ (EnqueueJob.build_job Wired.enqueue submission "j_1" 10).log_path)
    ↔ (submission.log_path ≢ "")
log_path-start_spec_example =
    log_path-start_spec Wired.enqueue submission "j_1" 10 (record { token = "t"; expires_at = 0 })
      (record { api_key = "k" })

-- The container of j_1 failed, and was reported, before its start was recorded.
start_overwrites_example :
    (k : Job) × (Wired.rows
        (EnqueueJob.settle Wired.enqueue fresh (ok "c") (holding broken)).1
        "j_1"
      ≡ some k)
    × (k.status ≡ running)
    × ¬ (Reach broken k)
unfolding Job.is_terminal Job.mark_running EnqueueJob.settle FakeJobs.update FakeSmall.now
    Map.lookup Map.insert
start_overwrites_example =
    start_overwrites Wired.enqueue Wired.rows jobs-JobsContract fresh broken "c" (holding broken)
      (record { job_id = "j_1"; status = running }) refl refl refl refl

abbrev pub report : RunnerResult
report = record {
  job_id = "j_1";
  exit_code = pos 0;
  pr_url = "https://pr";
  error = "";
  notification_webhook = "https://hook";
  log_tail = "";
}

completion_effect_example :
    Recorded marshal Wired.complete Wired.rows report (holding started)
    ⊎ ((e : Error) × ((Completion.execute marshal Wired.complete report (holding started)).0
          ≡ err e)
        × (Wired.rows (Completion.execute marshal Wired.complete report (holding started)).1
            ≡ Wired.rows (holding started)))
unfolding FakeSmall.now FakeSmall.dispatch
completion_effect_example =
    completion_effect marshal Wired.complete Wired.rows jobs-JobsContract (λ w. refl)
      (λ url body w. refl) report (holding started)

completion_refused_example :
    (Completion.execute marshal Wired.complete report (holding broken)
      ≡ (err (sentinel invalid_state), holding broken))
    ⊎ ((m : String) × (Completion.execute marshal Wired.complete report (holding broken)
          ≡ (err (opaque m), holding broken)))
unfolding FakeSmall.now Map.lookup Job.is_terminal
completion_refused_example =
    completion_refused marshal Wired.complete Wired.rows jobs-JobsContract (λ w. refl)
      (λ url body w. refl) report (holding broken) broken refl refl (inl refl)

alive : World → String → Bool
alive w c = or_false (Map.get c w.runner.alive)

reattach_effect_example :
    (now : ℕ) × Swept
      (alive (holding started))
      now
      (Wired.rows (holding started))
      (Wired.rows (Reattach.execute Wired.reattach (holding started)).1)
    × (((e : Error) × ((Reattach.execute Wired.reattach (holding started)).0 ≡ err e))
        ⊎ (((Reattach.execute Wired.reattach (holding started)).0 ≡ ok tt)
            × (Wired.rows (Reattach.execute Wired.reattach (holding started)).1 ≡ λ id.
                sweep (alive (holding started)) now (Wired.rows (holding started) id))))
unfolding FakeSmall.now FakeRunner.inspect alive Map.lookup
reattach_effect_example =
    reattach_effect Wired.reattach Wired.rows jobs-JobsContract (λ w. refl) (λ c w. refl) alive
      (λ c w. inl refl) (λ c w. refl) (λ j w. refl) (λ w. refl) (holding started)
