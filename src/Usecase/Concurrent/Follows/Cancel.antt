-- ===== src/Usecase/Concurrent/Follows/Cancel.antt =====
-- Cancelling, beside other goroutines.
use mathlib.Core.List.{Memᴰ}
use agentic_delegator.Prelude.{
  ℕ, String, false, ◌||◌, ◌≡◌, refl, ap, ◌∙◌, inl, inr, arith, Bool-cases,
}
use agentic_delegator.Prelude.Text.{is_empty}
use agentic_delegator.Domain.Job.{Job, is_terminal, mark_cancelled}
use agentic_delegator.Domain.Job.Lifecycle.{Move}
use agentic_delegator.Ports.Jobs.{Table, owned, owned-eq-ok}
use agentic_delegator.Exec.{ok, Result-cases}
use agentic_delegator.Usecase.CancelJob.{CancelJob, CancelJobInput, stop_container, execute}
use agentic_delegator.Usecase.CancelJob.Effect.{stop_container-ok}
use agentic_delegator.Usecase.Concurrent.{System, Steps-trans, here}
use agentic_delegator.Usecase.Concurrent.Follows.{
  Ends, Follows, View, Matches, SharedJobs, moved, carried, Ends-trans, Steps-copies, with_copy,
  loads, changes, updates,
}

module _ {W C : Type 0} (uc : CancelJob W C) (view : W → View) (shared : SharedJobs uc.jobs view)
    (stop_follows : (c : String) → Follows view (uc.runner.stop c))
    (clock_follows : Follows view uc.clock.now) where
  stop_container-Follows : (c : String) → Follows view (stop_container uc c)
  unfolding stop_container
  stop_container-Follows c s w same = elim (Bool-cases (is_empty c)) [
    | inl none_yet ↦ (s, here, moved view same (ground arith))
    | inr there ↦ rw there (stop_follows c s w same)
  ]

  -- Once the job was read.
  from_copy :
      (input : CancelJobInput) (s : System) (w : W) (job : Job)
      → (is_empty input.job_id || is_empty input.user_id) ≡ false
      → uc.jobs.get_for_user input.job_id input.user_id w ≡ (ok job, w)
      → Memᴰ job s.copies
      → Matches s (view w)
      → Ends s (view (execute uc input w).1)
  unfolding execute
  from_copy input s w job good got held same = elim (Bool-cases (is_terminal job)) [
    | inl done ↦ (s, here, moved view same (ground arith))
    | inr live ↦
        let w1 : W = (stop_container uc job.container_id w).1 in
        let stopped = stop_container-Follows job.container_id s w same in
        let fine = stop_container-ok uc job.container_id w in
        let now : ℕ = (uc.clock.now w1).0 in
        let w2 : W = (uc.clock.now w1).1 in
        let timed = clock_follows stopped.0 w1 stopped.2 in
        Ends-trans stopped _ (
          Ends-trans timed _ (elim (Result-cases (mark_cancelled job now)) [
            | inr (e, refused) ↦ (timed.0, here, moved view timed.2 (ground arith))
            | inl (k, marked) ↦
                let held_on : Memᴰ job timed.0.copies =
                  Steps-copies job timed.1 (Steps-copies job stopped.1 held) in
                let (v, r, ends) =
                  updates uc.jobs view shared k (with_copy timed.0 k) w2 (Memᴰ.head refl)
                    (carried timed.2) in
                (
                  v,
                  Steps-trans (changes timed.0 job k held_on (Move.cancel now marked)) r,
                  moved view ends (ground arith),
                )
          ]))
  ]

  -- Where other goroutines take steps of the system while the runner is asked to stop and the clock
  -- is read, a whole cancellation is a sequence of such steps: a row is read, the copy is moved as
  -- the lifecycle allows, and the copy is written.
  pub cancel-Follows : (input : CancelJobInput) → Follows view (execute uc input)
  unfolding execute
  cancel-Follows input s w same =
      elim (Bool-cases (is_empty input.job_id || is_empty input.user_id)) [
        | inl bad ↦ (s, here, moved view same (ground arith))
        | inr good ↦ elim (shared.contract.get_for_user_lem input.job_id input.user_id w) [
          | inr (m, failed) ↦ (s, here, moved view same (ground arith))
          | inl answer ↦ elim (Result-cases (owned input.user_id ((view w).rows input.job_id))) [
            | inr (e, missing) ↦ (s, here, moved view same (ground arith))
            | inl (job, mine) ↦
                let there = (owned-eq-ok input.user_id ((view w).rows input.job_id) job mine).0 in
                let got : uc.jobs.get_for_user input.job_id input.user_id w ≡ (ok job, w) =
                  ground arith in
                let (v, r, ends) =
                  from_copy input (with_copy s job) w job good got (Memᴰ.head refl)
                    (carried same) in
                (
                  v,
                  Steps-trans
                      (loads s input.job_id job
                        (ap (λ (f : Table). f input.job_id) same.same_rows ∙ there))
                      r,
                  ends,
                )
          ]
        ]
      ]
