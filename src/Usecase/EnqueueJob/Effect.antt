-- ===== src/Usecase/EnqueueJob/Effect.antt =====
-- What submitting a job does to the jobs table, over any repository that keeps its contract.
use agentic_delegator.Prelude.{
  ℕ, String, true, false, ◌≡◌, refl, ◌⊎◌, inl, inr, Option, none, some, arith, Bool-cases, ◌∙◌, ap,
  sym, subst,
}
use agentic_delegator.Domain.Errors.{Error, sentinel, invalid_input, error_text}
use agentic_delegator.Domain.Job.{Job, queued, running, failed, mark_running, mark_failed}
use agentic_delegator.Domain.Job.Lifecycle.{Reach, Move}
use agentic_delegator.Ports.Jobs.{
  Table, JobsContract, put, put-put, count_user-alone, count_all-alone,
}
use agentic_delegator.Ports.Runner.{RunnerStartSpec}
use agentic_delegator.Ports.Quiet.{Quiet}
use agentic_delegator.Exec.{ok, err, Result, Result-cases}
use agentic_delegator.Usecase.EnqueueJob.{
  EnqueueJob, EnqueueJobInput, EnqueueJobOutput, build_job, output, rejects, repo_creds_for,
  anthropic_creds_for, at_user_cap, at_global_cap, start_spec, settle, launch, admit, execute,
}

-- The stored job as the answer shows it: a success names its status, queued or running; an error
-- leaves it queued, or failed with the error's text.
abbrev pub Verdict : Job → Result EnqueueJobOutput → Type 0
Verdict k r =
    ((r ≡ ok (output k)) × ((k.status ≡ queued) ⊎ (k.status ≡ running)))
    ⊎ ((e : Error) × (r ≡ err e)
        × ((k.status ≡ queued) ⊎ ((k.status ≡ failed) × (k.error ≡ error_text e))))

-- One row was added to the table: a job that the state machine makes of `job`.
abbrev pub Stored : {W : Type 0} → (W → Table) → Table → Job → Result EnqueueJobOutput × W → Type 0
Stored rows before job r =
    (k : Job) × Reach job k × (k.id ≡ job.id) × (rows r.1 ≡ put k before) × Verdict k r.0

mark_failed-queued :
    (job : Job) (reason : String) (now : ℕ)
    → job.status ≡ queued
    → mark_failed job reason now
      ≡ ok (record job { status = failed; error = reason; finished_at = some now })
unfolding mark_failed
mark_failed-queued job reason now h = ground arith

pub mark_running-queued :
    (job : Job) (c : String) (now : ℕ)
    → job.status ≡ queued
    → mark_running job c now
      ≡ ok (record job { status = running; container_id = c; started_at = some now })
unfolding mark_running
mark_running-queued job c now h = ground arith

module _ {W C : Type 0} (uc : EnqueueJob W C) (rows : W → Table)
    (contract : JobsContract uc.jobs rows) (clock_quiet : Quiet rows uc.clock.now)
    (ids_quiet : Quiet rows uc.id_gen.new_job_id)
    (repo_quiet : (u r : String) → Quiet rows (uc.repo_creds.for_repo u r))
    (anthropic_quiet : (u : String) → Quiet rows (uc.anthropic_creds.for_user u))
    (start_quiet : (s : RunnerStartSpec) (c : Option C) → Quiet rows (uc.runner.start s c)) where
  open contract use {create_lem, update_lem}

  settle_effect :
      (before : Table) (job : Job) (started : Result String) (w : W)
      → job.status ≡ queued
      → rows w ≡ put job before
      → Stored rows before job (settle uc job started w)
  unfolding settle
  settle_effect before job (err e) w fresh there =
      let now : ℕ = (uc.clock.now w).0 in
      let w1 : W = (uc.clock.now w).1 in
      let k : Job = record job { status = failed; error = error_text e; finished_at = some now } in
      let marked : mark_failed job (error_text e) now ≡ ok k =
        mark_failed-queued job (error_text e) now fresh in
      elim (update_lem k w1) [
        | inl (old, present, updated, written) ↦ (
          k,
          Reach.next Reach.here (Move.fail (error_text e) now marked),
          refl,
          rw marked (written ∙ ap (put k) (clock_quiet w ∙ there) ∙ put-put k job before refl),
          inr (e, refl, inr (refl, refl)),
        )
        | inr (x, broken) ↦ (
          job,
          Reach.here,
          refl,
          rw marked (ground (arith, clock_quiet w)),
          inr (e, refl, inl fresh),
        )
      ]
  settle_effect before job (ok c) w fresh there =
      let now : ℕ = (uc.clock.now w).0 in
      let w1 : W = (uc.clock.now w).1 in
      let k : Job = record job { status = running; container_id = c; started_at = some now } in
      let marked : mark_running job c now ≡ ok k = mark_running-queued job c now fresh in
      elim (update_lem k w1) [
        | inl (old, present, updated, written) ↦ (
          k,
          Reach.next Reach.here (Move.start c now marked),
          refl,
          ground (arith, clock_quiet w, put-put k job before refl),
          inl (ground arith, inr refl),
        )
        | inr (x, broken) ↦
            (job, Reach.here, refl, ground (arith, clock_quiet w), inr (x, ground arith, inl fresh))
      ]

  repo_creds_for-Quiet : (input : EnqueueJobInput) → Quiet rows (repo_creds_for uc input)
  unfolding repo_creds_for
  repo_creds_for-Quiet input w = repo_quiet input.user_id input.repo w

  anthropic_creds_for-Quiet : (input : EnqueueJobInput) → Quiet rows (anthropic_creds_for uc input)
  unfolding anthropic_creds_for
  anthropic_creds_for-Quiet input w = anthropic_quiet input.user_id w

  at_user_cap-Quiet : (user : String) → Quiet rows (at_user_cap uc user)
  unfolding at_user_cap
  at_user_cap-Quiet user w = ground (arith, count_user-alone uc.jobs rows contract user w)

  at_global_cap-Quiet : Quiet rows (at_global_cap uc)
  unfolding at_global_cap
  at_global_cap-Quiet w = ground (arith, count_all-alone uc.jobs rows contract w)

  launch_effect :
      (before : Table) (input : EnqueueJobInput) (job : Job) (w : W)
      → job.status ≡ queued
      → rows w ≡ put job before
      → Stored rows before job (launch uc input job w)
  unfolding launch
  launch_effect before input job w fresh there =
      let w1 : W = (repo_creds_for uc input w).1 in
      let w2 : W = (anthropic_creds_for uc input w1).1 in
      let at1 : rows w1 ≡ put job before = repo_creds_for-Quiet input w ∙ there in
      let at2 : rows w2 ≡ put job before = anthropic_creds_for-Quiet input w1 ∙ at1 in
      elim (Result-cases (repo_creds_for uc input w).0) [
        | inr (e, no_repo) ↦ (job, Reach.here, refl, ground arith, inr (e, ground arith, inl fresh))
        | inl (git, got) ↦ elim (Result-cases (anthropic_creds_for uc input w1).0) [
          | inr (e, no_key) ↦
              (job, Reach.here, refl, ground arith, inr (e, ground arith, inl fresh))
          | inl (key, held) ↦
              let spec : RunnerStartSpec = start_spec uc input job git key in
              let run : Result String × W = uc.runner.start spec uc.on_complete w2 in
              let same : launch uc input job w ≡ settle uc job run.0 run.1 = ground arith in
              subst (Stored rows before job) (sym same) (
                settle_effect before job run.0 run.1 fresh
                  (start_quiet spec uc.on_complete w2 ∙ at2))
        ]
      ]

  admit_effect :
      (before : Table) (input : EnqueueJobInput) (job : Job) (w : W)
      → job.status ≡ queued
      → rows w ≡ put job before
      → Stored rows before job (admit uc input job w)
  unfolding admit
  admit_effect before input job w fresh there =
      let w1 : W = (at_user_cap uc input.user_id w).1 in
      let w2 : W = (at_global_cap uc w1).1 in
      let at1 : rows w1 ≡ put job before = at_user_cap-Quiet input.user_id w ∙ there in
      let at2 : rows w2 ≡ put job before = at_global_cap-Quiet w1 ∙ at1 in
      elim (Result-cases (at_user_cap uc input.user_id w).0) [
        | inr (e, broken) ↦ (job, Reach.here, refl, ground arith, inr (e, ground arith, inl fresh))
        | inl (true, full) ↦ (job, Reach.here, refl, ground arith, inl (ground arith, inl fresh))
        | inl (false, room) ↦ elim (Result-cases (at_global_cap uc w1).0) [
          | inr (e, broken) ↦
              (job, Reach.here, refl, ground arith, inr (e, ground arith, inl fresh))
          | inl (true, full) ↦ (job, Reach.here, refl, ground arith, inl (ground arith, inl fresh))
          | inl (false, free) ↦
              let same : admit uc input job w ≡ launch uc input job w2 = ground arith in
              subst (Stored rows before job) (sym same)
                (launch_effect before input job w2 fresh at2)
        ]
      ]

  build_job_start :
      (input : EnqueueJobInput) (id : String) (now : ℕ)
      → ((build_job uc input id now).id ≡ id) × ((build_job uc input id now).status ≡ queued)
  unfolding build_job
  build_job_start input id now = (refl, refl)

  -- A rejected input is answered with `ErrInvalidInput` and nothing in the world has changed.
  -- Any other submission, given that no other step on the jobs table falls within the calls of the
  -- other ports, either changes no row and returns an error, or adds exactly one row where there
  -- was none: the job built from the input, or what the state machine makes of it. An answer
  -- without error then names that row's status, queued or running; an error leaves the row queued,
  -- or failed with the text of that error.
  pub enqueue_effect :
      (input : EnqueueJobInput) (w : W)
      → ((rejects input ≡ true) × (execute uc input w ≡ (err (sentinel invalid_input), w)))
        ⊎ ((e : Error) × ((execute uc input w).0 ≡ err e) × (rows (execute uc input w).1 ≡ rows w))
        ⊎ ((id : String) × (now : ℕ) × (rows w id ≡ none)
            × Stored rows (rows w) (build_job uc input id now) (execute uc input w))
  unfolding execute
  enqueue_effect input w =
      let now : ℕ = (uc.clock.now w).0 in
      let w1 : W = (uc.clock.now w).1 in
      let id : String = (uc.id_gen.new_job_id w1).0 in
      let w2 : W = (uc.id_gen.new_job_id w1).1 in
      let job : Job = build_job uc input id now in
      let w3 : W = (uc.jobs.create job w2).1 in
      let at2 : rows w2 ≡ rows w = ids_quiet w1 ∙ clock_quiet w in
      elim (Bool-cases (rejects input)) [
        | inl bad ↦ inl (bad, ground arith)
        | inr good ↦ elim (create_lem job w2) [
          | inr (e, taken) ↦ inr (inl (e, ground arith, ground arith))
          | inl (absent, created, added) ↦
              let same : execute uc input w ≡ admit uc input job w3 = ground arith in
              inr (
                inr (
                  id,
                  now,
                  ground (arith, build_job_start input id now),
                  subst (Stored rows (rows w) job) (sym same) (
                      admit_effect (rows w) input job w3 (build_job_start input id now).1
                        (added ∙ ap (put job) at2)),
                ))
        ]
      ]
