-- ===== src/Usecase/EnqueueJob/Caps.antt =====
-- Submissions of a user who has as many active jobs as the cap allows.
use agentic_delegator.Prelude.{
  ℕ, suc, String, true, ◌≡◌, refl, ap, ◌∙◌, ◌⊎◌, inl, inr, arith, Bool-cases,
}
use agentic_delegator.Prelude.Int.{is_positive, exceeds}
use agentic_delegator.Domain.Errors.{Error, sentinel, invalid_input}
use agentic_delegator.Domain.Job.{Job, queued}
use agentic_delegator.Ports.Jobs.{JobsRepository}
use agentic_delegator.Exec.{ok, err, Result-cases}
use agentic_delegator.Usecase.EnqueueJob.{
  EnqueueJob, EnqueueJobInput, rejects, build_job, at_user_cap, admit, execute, output,
}

-- How many queued and running jobs a user has: what the count of a repository answers, or it fails.
pub record CountsActive {W : Type 0} (repo : JobsRepository W) (active : W → String → ℕ)
    : Type 0 where
  pub counted :
      (user : String) (w : W)
      → ((repo.count_active_for_user user w).1 ≡ w)
        × (((repo.count_active_for_user user w).0 ≡ ok (active w user))
            ⊎ ((e : Error) × ((repo.count_active_for_user user w).0 ≡ err e)))
  -- a queued job that is added counts
  pub created :
      (j : Job) (w : W)
      → (repo.create j w).0 ≡ ok tt
      → j.status ≡ queued
      → active (repo.create j w).1 j.user_id ≡ suc (active w j.user_id)

module _ {W C : Type 0} (uc : EnqueueJob W C) (active : W → String → ℕ)
    (counts : CountsActive uc.jobs active)
    (clock_same : (u : String) (w : W) → active (uc.clock.now w).1 u ≡ active w u)
    (ids_same : (u : String) (w : W) → active (uc.id_gen.new_job_id w).1 u ≡ active w u) where
  open counts use {counted, created}

  -- A job whose user has more active ones than the cap is left as it is.
  admit_full :
      (input : EnqueueJobInput) (job : Job) (w : W)
      → is_positive uc.max_concurrent_per_user ≡ true
      → exceeds (active w input.user_id) uc.max_concurrent_per_user ≡ true
      → ((admit uc input job w).1 ≡ w)
        × (((admit uc input job w).0 ≡ ok (output job))
            ⊎ ((e : Error) × ((admit uc input job w).0 ≡ err e)))
  unfolding admit at_user_cap
  admit_full input job w capped full =
      let (same, answer) = counted input.user_id w in
      elim answer [
        | inl counts_them ↦ (ground arith, inl (ground arith))
        | inr (e, broken) ↦ (ground arith, inr (e, ground arith))
      ]

  -- Given that the count of the repository counts the queued and running jobs, and that the clock and
  -- the IDs add none: where the user already has as many of them as a positive cap allows, a
  -- submission is refused and leaves the world alone, or all that it does after the clock and the ID
  -- is to try to create its row: it asks for no credentials and starts no container. Then it ends
  -- with an error, or it answers that the job is queued, and the user has one more active job.
  pub cap_holds :
      (input : EnqueueJobInput) (w : W)
      → is_positive uc.max_concurrent_per_user ≡ true
      → exceeds (suc (active w input.user_id)) uc.max_concurrent_per_user ≡ true
      → (execute uc input w ≡ (err (sentinel invalid_input), w))
        ⊎ ((id : String) × (now : ℕ) × (v : W) × ((execute uc input w).1
              ≡ (uc.jobs.create (build_job uc input id now) v).1)
            × (((e : Error) × ((execute uc input w).0 ≡ err e))
                ⊎ (((execute uc input w).0 ≡ ok (record { job_id = id; status = queued }))
                    × (active (execute uc input w).1 input.user_id
                        ≡ suc (active w input.user_id)))))
  unfolding execute build_job
  cap_holds input w capped full = elim (Bool-cases (rejects input)) [
    | inl bad ↦ inl (ground arith)
    | inr good ↦
        let now : ℕ = (uc.clock.now w).0 in
        let w1 : W = (uc.clock.now w).1 in
        let id : String = (uc.id_gen.new_job_id w1).0 in
        let w2 : W = (uc.id_gen.new_job_id w1).1 in
        let job : Job = build_job uc input id now in
        let w3 : W = (uc.jobs.create job w2).1 in
        let at2 : active w2 input.user_id ≡ active w input.user_id =
          ids_same input.user_id w1 ∙ clock_same input.user_id w in
        elim (Result-cases (uc.jobs.create job w2).0) [
          | inr (e, taken) ↦ inr (id, now, w2, ground arith, inl (e, ground arith))
          | inl (x, done) ↦
              let more : active w3 input.user_id ≡ suc (active w input.user_id) =
                created job w2 done refl ∙ ap suc at2 in
              let still : exceeds (active w3 input.user_id) uc.max_concurrent_per_user ≡ true =
                ap (λ n. exceeds n uc.max_concurrent_per_user) more ∙ full in
              let same : execute uc input w ≡ admit uc input job w3 = ground arith in
              let (kept, answer) = admit_full input job w3 capped still in
              let after : (execute uc input w).1 ≡ w3 = ap (λ r. r.1) same ∙ kept in
              elim answer [
                | inl stays ↦ inr (
                  id,
                  now,
                  w2,
                  after,
                  inr (ap (λ r. r.0) same ∙ stays, ap (λ v. active v input.user_id) after ∙ more),
                )
                | inr (e, broken) ↦ inr (id, now, w2, after, inl (e, ap (λ r. r.0) same ∙ broken))
              ]
        ]
  ]
