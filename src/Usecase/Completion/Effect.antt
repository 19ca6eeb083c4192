-- ===== src/Usecase/Completion/Effect.antt =====
-- What a completion report does to the jobs table, over any repository that keeps its contract.
use agentic_delegator.Prelude.{
  ℕ, String, true, false, ◌≡◌, refl, ◌⊎◌, inl, inr, Option, none, some, arith, Bool-cases, ◌∙◌, ap,
  if◌then◌else◌,
}
use agentic_delegator.Prelude.Int.{is_zero}
use agentic_delegator.Prelude.Text.{is_empty}
use agentic_delegator.Domain.Errors.{Error, sentinel, opaque, invalid_input, invalid_state}
use agentic_delegator.Domain.Job.{
  Job, queued, succeeded, failed, mark_succeeded, mark_failed, is_terminal,
}
use agentic_delegator.Domain.Job.Lifecycle.{Move}
use agentic_delegator.Ports.Jobs.{Table, JobsContract, put, found}
use agentic_delegator.Ports.Runner.{RunnerResult}
use agentic_delegator.Ports.Quiet.{Quiet}
use agentic_delegator.Exec.{Exec, pure, ok, err, Result, Result-cases}
use agentic_delegator.Usecase.Completion.{
  CompletionPayload, DispatchCompletionWebhook, HandleRunnerCompletion, conclude, dispatch, notify,
  execute,
}

pub conclude-Move :
    (job : Job) (res : RunnerResult) (now : ℕ) (k : Job)
    → conclude job res now ≡ ok k
    → Move job k
      × (k.id ≡ job.id)
      × (k.status ≡ (if is_zero res.exit_code then succeeded else failed))
unfolding conclude mark_succeeded mark_failed is_terminal
conclude-Move job res now k h = elim (Bool-cases (is_zero res.exit_code)) [
  | inl zero_code ↦ (Move.succeed res.pr_url now (ground arith), ground arith, ground arith)
  | inr other_code ↦ (
    Move.fail (if is_empty res.error then "runner exited with non-zero code" else res.error) now
        (ground arith),
    ground arith,
    ground arith,
  )
]

-- The call that the webhook, if there is one, makes of its dispatcher.
abbrev pub hook_dispatch :
    {W : Type 0} → Option (DispatchCompletionWebhook W) → String → String → Exec W (Unit {0})
hook_dispatch none url body = pure tt
hook_dispatch (some hook) url body = hook.dispatcher.dispatch url body

pub found-eq-ok : (o : Option Job) (j : Job) → found o ≡ ok j → o ≡ some j
found-eq-ok none j h = cc
found-eq-ok (some k) j h = cc

module _ {W : Type 0} (marshal : CompletionPayload → Result String) (uc : HandleRunnerCompletion W)
    (rows : W → Table) where
  abbrev pub Recorded : RunnerResult → W → Type 0
  Recorded res w =
      (job k : Job) × (now : ℕ) × (rows w res.job_id ≡ some job)
      × (conclude job res now ≡ ok k)
      × Move job k
      × (k.status ≡ (if is_zero res.exit_code then succeeded else failed))
      × ((execute marshal uc res w).0 ≡ ok tt)
      × (rows (execute marshal uc res w).1 ≡ put k (rows w))

module _ {W : Type 0} (marshal : CompletionPayload → Result String) (uc : HandleRunnerCompletion W)
    (rows : W → Table) (contract : JobsContract uc.jobs rows)
    (clock_quiet : Quiet rows uc.clock.now)
    (hook_quiet : (url body : String) → Quiet rows (hook_dispatch uc.webhook url body)) where
  open contract use {get_lem, update_lem}

  notify-ok :
      (hook : Option (DispatchCompletionWebhook W)) (res : RunnerResult) (k : Job) (w : W)
      → (notify marshal hook res k w).0 ≡ ok tt
  unfolding notify
  notify-ok none res k w = refl
  notify-ok (some hook) res k w = ground arith

  notify-Quiet :
      (hook : Option (DispatchCompletionWebhook W)) (res : RunnerResult) (k : Job) (w : W)
      → ((url body : String) → Quiet rows (hook_dispatch hook url body))
      → rows (notify marshal hook res k w).1 ≡ rows w
  unfolding notify dispatch
  notify-Quiet none res k w quiet = refl
  notify-Quiet (some hook) res k w quiet =
      elim (Result-cases
        (marshal (record { event = "job.completed"; job = k; log_tail = res.log_tail }))) [
          | inl (body, text) ↦ ground (arith, quiet res.notification_webhook body w)
          | inr (e, bad) ↦ ground arith
        ]

  -- what is left once the job was found
  record_found :
      (res : RunnerResult) (w : W) (job : Job)
      → is_empty res.job_id ≡ false
      → uc.jobs.get res.job_id w ≡ (ok job, w)
      → rows w res.job_id ≡ some job
      → Recorded marshal uc rows res w
        ⊎ ((e : Error) × ((execute marshal uc res w).0 ≡ err e)
            × (rows (execute marshal uc res w).1 ≡ rows w))
  unfolding execute
  record_found res w job named got there =
      let now : ℕ = (uc.clock.now w).0 in
      let w1 : W = (uc.clock.now w).1 in
      elim (Result-cases (conclude job res now)) [
        | inr (e, refused) ↦ inr (e, ground arith, ground (arith, clock_quiet w))
        | inl (k, done) ↦ elim (update_lem k w1) [
          | inr (e, broken) ↦ inr (e, ground arith, ground (arith, clock_quiet w))
          | inl (old, present, updated, written) ↦
              let w2 : W = (uc.jobs.update k w1).1 in
              let same : execute marshal uc res w ≡ notify marshal uc.webhook res k w2 =
                ground arith in
              let moved : Move job k
                  × (k.id ≡ job.id)
                  × (k.status ≡ (if is_zero res.exit_code then succeeded else failed)) =
                conclude-Move job res now k done in
              inl (
                job,
                k,
                now,
                there,
                done,
                moved.0,
                moved.2,
                ap (λ (r : Result (Unit {0}) × W). r.0) same ∙ notify-ok uc.webhook res k w2,
                ap (λ (r : Result (Unit {0}) × W). rows r.1) same
                    ∙ notify-Quiet uc.webhook res k w2 hook_quiet
                    ∙ written
                    ∙ ap (put k) (clock_quiet w),
              )
        ]
      ]

  -- A completion report, given that no other step on the jobs table falls within the calls of the
  -- clock and the webhook, either stores one legal move of the reported job, to succeeded if the
  -- exit code is 0 and to failed otherwise, leaves every other row alone and returns no error,
  -- whatever the webhook does; or it returns an error and no row has changed.
  pub completion_effect :
      (res : RunnerResult) (w : W)
      → Recorded marshal uc rows res w
        ⊎ ((e : Error) × ((execute marshal uc res w).0 ≡ err e)
            × (rows (execute marshal uc res w).1 ≡ rows w))
  unfolding execute
  completion_effect res w = elim (Bool-cases (is_empty res.job_id)) [
    | inl unnamed ↦ inr (sentinel invalid_input, ground arith, ground arith)
    | inr named ↦ elim (get_lem res.job_id w) [
      | inr (m, broken) ↦ inr (opaque m, ground arith, ground arith)
      | inl answer ↦ elim (Result-cases (found (rows w res.job_id))) [
        | inr (e, missing) ↦ inr (e, ground arith, ground arith)
        | inl (job, here) ↦
            record_found res w job named (ground arith) (found-eq-ok (rows w res.job_id) job here)
      ]
    ]
  ]

  -- A report with a job ID, for a job that is already terminal, or a report of exit code 0 for one
  -- that is still queued, is refused with `ErrInvalidState`, or the store fails while it is read.
  -- Either way nothing but the clock was called: no row has changed and no webhook was sent.
  pub completion_refused :
      (res : RunnerResult) (w : W) (job : Job)
      → is_empty res.job_id ≡ false
      → rows w res.job_id ≡ some job
      → (is_terminal job ≡ true) ⊎ ((job.status ≡ queued) × (is_zero res.exit_code ≡ true))
      → (execute marshal uc res w ≡ (err (sentinel invalid_state), (uc.clock.now w).1))
        ⊎ ((m : String) × (execute marshal uc res w ≡ (err (opaque m), w)))
  unfolding execute conclude mark_succeeded mark_failed is_terminal
  completion_refused res w job named there over = elim (get_lem res.job_id w) [
    | inl answer ↦ inl (ground arith)
    | inr (m, broken) ↦ inr (m, ground arith)
  ]
