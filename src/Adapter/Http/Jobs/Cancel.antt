-- ===== src/Adapter/Http/Jobs/Cancel.antt =====
-- What a client reads from the answer to POST /api/jobs/{id}/cancel.
use agentic_delegator.Prelude.{
  ℕ, String, false, ◌≡◌, ◌⊎◌, refl, inl, inr, some, arith, leb, Bool-cases, ◌||◌, true,
}
use agentic_delegator.Domain.Errors.{Error, is_error, not_found, forbidden, conflict, invalid_state}
use agentic_delegator.Domain.Job.{Job, is_terminal, cancelled}
use agentic_delegator.Ports.Jobs.{Table, JobsContract, put}
use agentic_delegator.Ports.Quiet.{Quiet}
use agentic_delegator.Usecase.CancelJob.{CancelJobInput}
use agentic_delegator.Usecase.CancelJob.Effect.{cancel_effect}
use agentic_delegator.Adapter.Http.Response.{domain_error, error_response}
use agentic_delegator.Adapter.Http.Jobs.{JobsHandler, cancel_job}

-- No error of the domain is answered with a status below 400.
domain_error-code : (e : Error) → leb 400 (domain_error e).code ≡ true
unfolding domain_error error_response
domain_error-code e = elim (Bool-cases (is_error e not_found)) [
  | inl h ↦ ground arith
  | inr h ↦ elim (Bool-cases (is_error e forbidden)) [
    | inl h' ↦ ground arith
    | inr h' ↦ elim (Bool-cases (is_error e conflict || is_error e invalid_state)) [
      | inl x ↦ ground arith
      | inr x ↦ ground arith
    ]
  ]
]

-- Over a jobs repository that keeps its contract, with a runner and a clock that leave the table
-- alone: the status 204 is answered exactly where the caller's own live job is stored as
-- cancelled; every other answer is at least 400 and leaves the table as it was.
pub cancel_job_status :
    {W C : Type 0} (h : JobsHandler W C) (rows : W → Table)
    (contract : JobsContract h.cancel.jobs rows)
    (stop_quiet : (c : String) → Quiet rows (h.cancel.runner.stop c))
    (clock_quiet : Quiet rows h.cancel.clock.now) (uid id : String) (w : W)
    → (((cancel_job h uid id w).0.code ≡ 204)
        × (job : Job) × (now : ℕ) × (rows w id ≡ some job)
        × (job.user_id ≡ uid)
        × (is_terminal job ≡ false)
        × (rows (cancel_job h uid id w).1
            ≡ put (record job { status = cancelled; finished_at = some now }) (rows w)))
      ⊎ ((leb 400 (cancel_job h uid id w).0.code ≡ true)
          × (rows (cancel_job h uid id w).1 ≡ rows w))
unfolding cancel_job
cancel_job_status h rows contract stop_quiet clock_quiet uid id w =
    let input : CancelJobInput = record { job_id = id; user_id = uid } in
    elim (cancel_effect h.cancel rows contract stop_quiet clock_quiet input w) [
      | inl (job, now, there, mine, live, done, after) ↦
          inl (rw done refl, job, now, there, mine, live, after)
      | inr (e, failed, after) ↦ inr (rw failed (domain_error-code e), after)
    ]
