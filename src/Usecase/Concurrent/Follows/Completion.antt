-- ===== src/Usecase/Concurrent/Follows/Completion.antt =====
-- A supervisor's report, beside other goroutines.
use mathlib.Core.List.{Memᴰ}
use agentic_delegator.Prelude.{
  ℕ, String, false, ◌≡◌, refl, ap, ◌∙◌, inl, inr, Option, none, some, arith, Bool-cases,
}
use agentic_delegator.Prelude.Text.{is_empty}
use agentic_delegator.Domain.Job.{Job}
use agentic_delegator.Ports.Jobs.{Table, found}
use agentic_delegator.Ports.Runner.{RunnerResult}
use agentic_delegator.Exec.{Result, ok, Result-cases}
use agentic_delegator.Usecase.Completion.{
  CompletionPayload, DispatchCompletionWebhook, HandleRunnerCompletion, conclude, dispatch,
  dispatch_job, notify, execute,
}
use agentic_delegator.Usecase.Completion.Effect.{hook_dispatch, conclude-Move, found-eq-ok}
use agentic_delegator.Usecase.Concurrent.{System, Steps-trans, here}
use agentic_delegator.Usecase.Concurrent.Follows.{
  Ends, Follows, View, Matches, SharedJobs, moved, carried, Ends-trans, Steps-copies, with_copy,
  loads, changes, updates,
}

module _ {W : Type 0} (marshal : CompletionPayload → Result String) (uc : HandleRunnerCompletion W)
    (view : W → View) (shared : SharedJobs uc.jobs view) (clock_follows : Follows view uc.clock.now)
    (hook_follows : (url body : String) → Follows view (hook_dispatch uc.webhook url body)) where
  notify-Follows :
      (hook : Option (DispatchCompletionWebhook W)) (res : RunnerResult) (k : Job)
      → ((url body : String) → Follows view (hook_dispatch hook url body))
      → Follows view (notify marshal hook res k)
  unfolding notify dispatch dispatch_job
  notify-Follows none res k go s w same = (s, here, same)
  notify-Follows (some hook) res k go s w same =
      elim (Bool-cases (is_empty res.notification_webhook)) [
        | inl unset ↦ (s, here, moved view same (ground arith))
        | inr url ↦
            elim (Result-cases
              (marshal (record { event = "job.completed"; job = k; log_tail = res.log_tail }))) [
                | inr (e, broken) ↦ (s, here, moved view same (ground arith))
                | inl (body, text) ↦
                    let (t, r, ends) = go res.notification_webhook body s w same in
                    (t, r, moved view ends (ground arith))
              ]
      ]

  -- Once the job was read.
  report_copy :
      (res : RunnerResult) (s : System) (w : W) (job : Job)
      → is_empty res.job_id ≡ false
      → uc.jobs.get res.job_id w ≡ (ok job, w)
      → Memᴰ job s.copies
      → Matches s (view w)
      → Ends s (view (execute marshal uc res w).1)
  unfolding execute
  report_copy res s w job named got held same =
      let now : ℕ = (uc.clock.now w).0 in
      let w1 : W = (uc.clock.now w).1 in
      let timed = clock_follows s w same in
      Ends-trans timed _ (elim (Result-cases (conclude job res now)) [
        | inr (e, refused) ↦ (timed.0, here, moved view timed.2 (ground arith))
        | inl (k, done) ↦
            let held_on : Memᴰ job timed.0.copies = Steps-copies job timed.1 held in
            let (move, same_id, status) = conclude-Move job res now k done in
            let u = with_copy timed.0 k in
            let before = changes timed.0 job k held_on move in
            let stored = updates uc.jobs view shared k u w1 (Memᴰ.head refl) (carried timed.2) in
            let w2 : W = (uc.jobs.update k w1).1 in
            elim (Result-cases (uc.jobs.update k w1).0) [
              | inr (e, failed) ↦
                  (stored.0, Steps-trans before stored.1, moved view stored.2 (ground arith))
              | inl (x, updated) ↦
                  let (v, r, ends) =
                    notify-Follows uc.webhook res k hook_follows stored.0 w2 stored.2 in
                  (v, Steps-trans before (Steps-trans stored.1 r), moved view ends (ground arith))
            ]
      ])

  -- Over a jobs repository that keeps its contract, and whose writes leave the copies alone that other
  -- goroutines hold: where other goroutines only take steps of the system while the clock is read and
  -- the webhook is sent, the writing of copies that they held before among them, a whole report is a
  -- sequence of such steps, from any moment at which the system's table is the repository's and its
  -- copies include those that the other goroutines hold.
  pub completion-Follows : (res : RunnerResult) → Follows view (execute marshal uc res)
  unfolding execute
  completion-Follows res s w same = elim (Bool-cases (is_empty res.job_id)) [
    | inl bad ↦ (s, here, moved view same (ground arith))
    | inr named ↦ elim (shared.contract.get_lem res.job_id w) [
      | inr (m, failed) ↦ (s, here, moved view same (ground arith))
      | inl answer ↦ elim (Result-cases (found ((view w).rows res.job_id))) [
        | inr (e, missing) ↦ (s, here, moved view same (ground arith))
        | inl (job, is_found) ↦
            let there = found-eq-ok ((view w).rows res.job_id) job is_found in
            let got : uc.jobs.get res.job_id w ≡ (ok job, w) = ground arith in
            let (v, r, ends) =
              report_copy res (with_copy s job) w job named got (Memᴰ.head refl) (carried same) in
            (
              v,
              Steps-trans
                  (loads s res.job_id job (ap (λ (f : Table). f res.job_id) same.same_rows ∙ there))
                  r,
              ends,
            )
      ]
    ]
  ]
