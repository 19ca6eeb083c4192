-- ===== src/Usecase/CancelJob/Race.antt =====
-- While `Execute` of core/usecase/cancel_job.go waits for the container to stop, its supervisor may
-- report. `Execute` then writes its own copy of the job, read before the report.
use agentic_delegator.Prelude.{
  ℕ, true, false, ◌||◌, ◌≡◌, ◌≢◌, ap, sym, ◌∙◌, inl, inr, some, arith, subst, Bool-cases,
}
use agentic_delegator.Prelude.Text.{is_empty}
use agentic_delegator.Domain.Job.{Job, cancelled, is_terminal, mark_cancelled}
use agentic_delegator.Domain.Job.Lifecycle.{Reach, Reach-terminal}
use agentic_delegator.Ports.Jobs.{Table, JobsContract, put, put_self, owned, owned-eq-ok}
use agentic_delegator.Exec.{Result, ok, Result-cases}
use agentic_delegator.Usecase.CancelJob.{CancelJob, CancelJobInput, stop_container, execute}
use agentic_delegator.Usecase.CancelJob.Effect.{mark_cancelled-eq-ok, stop_container-ok}

not-Reach-cancelled :
    (old k : Job)
    → is_terminal old ≡ true
    → old.status ≢ cancelled
    → k.status ≡ cancelled
    → ¬ (Reach old k)
not-Reach-cancelled old k done other is r =
    other (ap (λ (j : Job). j.status) (sym (Reach-terminal done r)) ∙ is)

module _ {W C : Type 0} (uc : CancelJob W C) (rows : W → Table)
    (contract : JobsContract uc.jobs rows) where
  open contract use {keyed, update_lem, get_for_user_lem}

  -- what is left once the job was found and is not terminal
  overwrites_live :
      (input : CancelJobInput) (job old : Job) (w : W)
      → (is_empty input.job_id || is_empty input.user_id) ≡ false
      → is_terminal job ≡ false
      → uc.jobs.get_for_user input.job_id input.user_id w ≡ (ok job, w)
      → job.id ≡ input.job_id
      → is_terminal old ≡ true
      → old.status ≢ cancelled
      → (execute uc input w).0 ≡ ok tt
      → (k : Job) × (rows (execute uc input w).1 input.job_id ≡ some k)
        × (k.status ≡ cancelled)
        × ¬ (Reach old k)
  unfolding execute
  overwrites_live input job old w good live got same_id done other fine =
      let w1 : W = (stop_container uc job.container_id w).1 in
      let now : ℕ = (uc.clock.now w1).0 in
      let w2 : W = (uc.clock.now w1).1 in
      let stopped : (stop_container uc job.container_id w).0 ≡ ok tt =
        stop_container-ok uc job.container_id w in
      elim (Result-cases (mark_cancelled job now)) [
        | inr (e, refused) ↦ absurd (ground arith)
        | inl (k, marked) ↦
            let is_k = mark_cancelled-eq-ok job now k marked in
            elim (update_lem k w2) [
              | inr (e, failed) ↦ absurd (ground arith)
              | inl (x, present, updated, written) ↦
                  let status : k.status ≡ cancelled = ap (λ (j : Job). j.status) is_k in
                  let id : k.id ≡ input.job_id = ap (λ (j : Job). j.id) is_k ∙ same_id in
                  let stored : put k (rows w2) input.job_id ≡ some k =
                    subst (λ i. put k (rows w2) i ≡ some k) id (put_self k (rows w2)) in
                  (k, ground arith, status, not-Reach-cancelled old k done other status)
            ]
      ]

  -- Over a jobs repository that keeps its contract: where a cancellation finds the job of its caller,
  -- the row has become terminal, other than cancelled, by the time the container has stopped and the
  -- clock is read, and the cancellation ends without error, the row is stored as cancelled all the
  -- same, which no sequence of the job's own methods makes of what had become of it.
  pub cancel_overwrites :
      (input : CancelJobInput) (job old : Job) (w : W)
      → rows w input.job_id ≡ some job
      → rows (uc.clock.now (stop_container uc job.container_id w).1).1 input.job_id ≡ some old
      → is_terminal old ≡ true
      → old.status ≢ cancelled
      → (execute uc input w).0 ≡ ok tt
      → (k : Job) × (rows (execute uc input w).1 input.job_id ≡ some k)
        × (k.status ≡ cancelled)
        × ¬ (Reach old k)
  unfolding execute
  cancel_overwrites input job old w there reported done other fine =
      elim (Bool-cases (is_empty input.job_id || is_empty input.user_id)) [
        | inl bad ↦ absurd (ground arith)
        | inr good ↦ elim (get_for_user_lem input.job_id input.user_id w) [
          | inr (m, failed) ↦ absurd (ground arith)
          | inl answer ↦ elim (Result-cases (owned input.user_id (rows w input.job_id))) [
            | inr (e, missing) ↦ absurd (ground arith)
            | inl (j, found) ↦
                let (row, mine) = owned-eq-ok input.user_id (rows w input.job_id) j found in
                let is_job : j ≡ job = ground arith in
                let got : uc.jobs.get_for_user input.job_id input.user_id w ≡ (ok job, w) =
                  answer ∙ ap (λ (r : Result Job). (r, w)) (found ∙ ap ok is_job) in
                elim (Bool-cases (is_terminal job)) [
                  | inl ended ↦ absurd (ground arith)
                  | inr live ↦
                      overwrites_live input job old w good live got (keyed w input.job_id job there)
                        done other fine
                ]
          ]
        ]
      ]
