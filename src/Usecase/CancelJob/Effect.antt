-- ===== src/Usecase/CancelJob/Effect.antt =====
-- What cancelling does to the jobs table, over any repository that keeps its contract.
use agentic_delegator.Prelude.{
  ℕ, String, false, ◌||◌, ◌≡◌, ◌≢◌, ◌⊎◌, inl, inr, some, arith, Bool-cases, ◌∙◌,
}
use agentic_delegator.Prelude.Text.{is_empty}
use agentic_delegator.Domain.Errors.{
  Error, sentinel, not_found, invalid_state, invalid_input, opaque,
}
use agentic_delegator.Domain.Job.{Job, cancelled, is_terminal, mark_cancelled}
use agentic_delegator.Ports.Jobs.{
  Table, JobsContract, put, owned, owned-eq-ok, owned-foreign, Answers,
}
use agentic_delegator.Ports.Quiet.{Quiet}
use agentic_delegator.Exec.{ok, err, Result-cases}
use agentic_delegator.Usecase.CancelJob.{CancelJob, CancelJobInput, stop_container, execute}

pub mark_cancelled-eq-ok :
    (job : Job) (now : ℕ) (k : Job)
    → mark_cancelled job now ≡ ok k
    → k ≡ record job { status = cancelled; finished_at = some now }
unfolding mark_cancelled
mark_cancelled-eq-ok job now k h = ground arith

-- Stopping a container never fails: its error is thrown away.
pub stop_container-ok :
    {W C : Type 0} (uc : CancelJob W C) (c : String) (w : W) → (stop_container uc c w).0 ≡ ok tt
unfolding stop_container
stop_container-ok uc c w = ground arith

module _ {W C : Type 0} (uc : CancelJob W C) (rows : W → Table) where
  abbrev pub Cancelled : CancelJobInput → W → Type 0
  Cancelled input w =
      (job : Job) × (now : ℕ) × (rows w input.job_id ≡ some job)
      × (job.user_id ≡ input.user_id)
      × (is_terminal job ≡ false)
      × ((execute uc input w).0 ≡ ok tt)
      × (rows (execute uc input w).1
          ≡ put (record job { status = cancelled; finished_at = some now }) (rows w))

  abbrev pub Refused : CancelJobInput → W → Type 0
  Refused input w =
      (e : Error) × ((execute uc input w).0 ≡ err e) × (rows (execute uc input w).1 ≡ rows w)

module _ {W C : Type 0} (uc : CancelJob W C) (rows : W → Table)
    (contract : JobsContract uc.jobs rows)
    (stop_quiet : (c : String) → Quiet rows (uc.runner.stop c))
    (clock_quiet : Quiet rows uc.clock.now) where
  open contract use {update_lem, get_for_user_lem}

  stop_container-Quiet : (c : String) → Quiet rows (stop_container uc c)
  unfolding stop_container
  stop_container-Quiet c w = ground (arith, stop_quiet c w)

  -- what is left once the job was found and is not terminal
  found_live :
      (input : CancelJobInput) (w : W) (job : Job)
      → (is_empty input.job_id || is_empty input.user_id) ≡ false
      → is_terminal job ≡ false
      → uc.jobs.get_for_user input.job_id input.user_id w ≡ (ok job, w)
      → (rows w input.job_id ≡ some job) × (job.user_id ≡ input.user_id)
      → Cancelled uc rows input w ⊎ Refused uc rows input w
  unfolding execute
  found_live input w job good live got (there, mine) =
      let w1 : W = (stop_container uc job.container_id w).1 in
      let now : ℕ = (uc.clock.now w1).0 in
      let w2 : W = (uc.clock.now w1).1 in
      let same : rows w2 ≡ rows w = clock_quiet w1 ∙ stop_container-Quiet job.container_id w in
      let stopped : (stop_container uc job.container_id w).0 ≡ ok tt =
        stop_container-ok uc job.container_id w in
      elim (Result-cases (mark_cancelled job now)) [
        | inr (e, refused) ↦ inr (e, ground arith, ground arith)
        | inl (k, marked) ↦ elim (update_lem k w2) [
          | inr (e, failed) ↦ inr (e, ground arith, ground arith)
          | inl (old, present, updated, written) ↦ inl (
            job,
            now,
            there,
            mine,
            live,
            ground arith,
            ground (arith, mark_cancelled-eq-ok job now k marked),
          )
        ]
      ]

  -- Given that no other step on the jobs table falls within the calls of the runner and the clock,
  -- cancelling either stores the caller's own job, which was not terminal, as cancelled at some
  -- time, leaves every other row alone and returns no error, or it returns an error and no row has
  -- changed.
  pub cancel_effect :
      (input : CancelJobInput) (w : W) → Cancelled uc rows input w ⊎ Refused uc rows input w
  unfolding execute
  cancel_effect input w = elim (Bool-cases (is_empty input.job_id || is_empty input.user_id)) [
    | inl bad ↦ inr (sentinel invalid_input, ground arith, ground arith)
    | inr good ↦ elim (get_for_user_lem input.job_id input.user_id w) [
      | inr (m, failed) ↦ inr (opaque m, ground arith, ground arith)
      | inl answer ↦ elim (Result-cases (owned input.user_id (rows w input.job_id))) [
        | inr (e, missing) ↦ inr (e, ground arith, ground arith)
        | inl (job, here) ↦ elim (Bool-cases (is_terminal job)) [
          | inl done ↦ inr (sentinel invalid_state, ground arith, ground arith)
          | inr live ↦
              found_live input w job good live (ground arith)
                (owned-eq-ok input.user_id (rows w input.job_id) job here)
        ]
      ]
    ]
  ]

  -- Where the caller owns no row of that ID, because there is none or it is another user's, a
  -- cancellation with non-empty IDs answers `ErrNotFound` or an error of the store, and nothing in
  -- the world has changed: no container was stopped.
  pub cancel_foreign :
      (input : CancelJobInput) (w : W)
      → is_empty input.job_id ≡ false
      → is_empty input.user_id ≡ false
      → ((j : Job) → rows w input.job_id ≡ some j → j.user_id ≢ input.user_id)
      → Answers (execute uc input w) (err (sentinel not_found)) w
  unfolding execute
  cancel_foreign input w id user foreign =
      let none_owned : owned input.user_id (rows w input.job_id) ≡ err (sentinel not_found) =
        owned-foreign input.user_id (rows w input.job_id) foreign in
      elim (get_for_user_lem input.job_id input.user_id w) [
        | inl answer ↦ inl (ground arith)
        | inr (m, failed) ↦ inr (m, ground arith)
      ]
