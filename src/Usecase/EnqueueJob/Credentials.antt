-- ===== src/Usecase/EnqueueJob/Credentials.antt =====
-- Submissions for which there are no repository credentials.
use agentic_delegator.Prelude.{
  ℕ, String, true, false, ◌≡◌, refl, ◌⊎◌, inl, inr, arith, ap, ◌∙◌, none,
}
use agentic_delegator.Prelude.Int.{is_positive}
use agentic_delegator.Domain.Errors.{Error, is_error, invalid_input, not_found, wrap, sentinel}
use agentic_delegator.Prelude.Text.{◌<>◌}
use agentic_delegator.Domain.Job.{Job, queued}
use agentic_delegator.Ports.Jobs.{Table, JobsContract, put}
use agentic_delegator.Ports.Quiet.{Quiet}
use agentic_delegator.Exec.{err}
use agentic_delegator.Usecase.EnqueueJob.{
  EnqueueJob, EnqueueJobInput, rejects, build_job, repo_creds_for, launch, at_user_cap,
  at_global_cap, admit, execute,
}

module _ {W C : Type 0} (uc : EnqueueJob W C) (rows : W → Table)
    (contract : JobsContract uc.jobs rows) (clock_quiet : Quiet rows uc.clock.now)
    (ids_quiet : Quiet rows uc.id_gen.new_job_id)
    (repo_quiet : (user repo : String) → Quiet rows (uc.repo_creds.for_repo user repo))
    (no_user_cap : is_positive uc.max_concurrent_per_user ≡ false)
    (no_global_cap : is_positive uc.max_concurrent_global ≡ false) (input : EnqueueJobInput)
    (no_creds : (w : W)
      → (e : Error) × (is_error e not_found ≡ true)
        × ((uc.repo_creds.for_repo input.user_id input.repo w).0 ≡ err e)) where
  open contract use {create_lem}

  admit_fails :
      (job : Job) (w : W)
      → ((e : Error) × ((admit uc input job w).0 ≡ err e) × (is_error e invalid_input ≡ true))
        × (rows (admit uc input job w).1 ≡ rows w)
  unfolding admit at_user_cap at_global_cap launch repo_creds_for
  admit_fails job w =
      let (e, absent, missing) = no_creds w in
      (
        (
          wrap (sentinel invalid_input) (
              "invalid input: repository credentials not available (is the GitHub App installed on "
              <> (input.repo <> "?)")),
          ground arith,
          refl,
        ),
        ground (arith, repo_quiet input.user_id input.repo w),
      )

  -- Without concurrency caps, given that the clock, the IDs and the provider leave the table alone
  -- and that the provider answers `ErrNotFound` for the repository: a submission that passes the
  -- guard is answered with an error; it changes no row, or the error is an `ErrInvalidInput` and
  -- exactly one row has been added, which stays queued.
  pub no_creds_stays_queued :
      (w : W)
      → rejects input ≡ false
      → ((e : Error) × ((execute uc input w).0 ≡ err e) × (rows (execute uc input w).1 ≡ rows w))
        ⊎ ((id : String) × (now : ℕ) × ((e : Error) × ((execute uc input w).0 ≡ err e)
              × (is_error e invalid_input ≡ true))
            × ((build_job uc input id now).status ≡ queued)
            × (rows w id ≡ none)
            × (rows (execute uc input w).1 ≡ put (build_job uc input id now) (rows w)))
  unfolding execute build_job
  no_creds_stays_queued w good =
      let now : ℕ = (uc.clock.now w).0 in
      let w1 : W = (uc.clock.now w).1 in
      let id : String = (uc.id_gen.new_job_id w1).0 in
      let w2 : W = (uc.id_gen.new_job_id w1).1 in
      let job : Job = build_job uc input id now in
      let w3 : W = (uc.jobs.create job w2).1 in
      let at2 : rows w2 ≡ rows w = ids_quiet w1 ∙ clock_quiet w in
      elim (create_lem job w2) [
        | inr (e, taken) ↦ inl (e, ground arith, ground arith)
        | inl (absent, created, added) ↦
            let same : execute uc input w ≡ admit uc input job w3 = ground arith in
            let ((e, failed, invalid), kept) = admit_fails job w3 in
            inr (
              id,
              now,
              (e, ap (λ r. r.0) same ∙ failed, invalid),
              refl,
              ground (arith, at2, absent),
              ap (λ r. rows r.1) same ∙ kept ∙ added ∙ ap (put job) at2,
            )
      ]
