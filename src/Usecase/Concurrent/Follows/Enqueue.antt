-- ===== src/Usecase/Concurrent/Follows/Enqueue.antt =====
-- A submission, beside other goroutines.
use mathlib.Core.List.{Memᴰ}
use agentic_delegator.Prelude.{
  ℕ, String, true, false, ◌≡◌, refl, sym, ap, ◌∙◌, inl, inr, ◌∷◌, Option, arith, Bool-cases,
}
use agentic_delegator.Domain.Errors.{error_text}
use agentic_delegator.Domain.Job.{Job, mark_running, mark_failed}
use agentic_delegator.Domain.Job.Lifecycle.{Move}
use agentic_delegator.Ports.Jobs.{Table, count_user-alone, count_all-alone, put}
use agentic_delegator.Ports.Runner.{RunnerStartSpec}
use agentic_delegator.Exec.{Result, ok, err, Result-cases}
use agentic_delegator.Usecase.EnqueueJob.{
  EnqueueJob, EnqueueJobInput, or_same, rejects, build_job, start_spec, at_user_cap, at_global_cap,
  repo_creds_for, anthropic_creds_for, settle, launch, admit, execute,
}
use agentic_delegator.Usecase.Concurrent.{System, Steps-trans, IsNew, built, submit, here, later}
use agentic_delegator.Usecase.Concurrent.Follows.{
  Ends, Follows, View, table, Matches, SharedJobs, moved, carried, grown, held_alone, Ends-trans,
  Steps-copies, with_copy, changes, changes_or_same, updates,
}

module _ {W C : Type 0} (uc : EnqueueJob W C) (view : W → View) (shared : SharedJobs uc.jobs view)
    (clock_follows : Follows view uc.clock.now) (ids_follows : Follows view uc.id_gen.new_job_id)
    (repo_follows : (u r : String) → Follows view (uc.repo_creds.for_repo u r))
    (anthropic_follows : (u : String) → Follows view (uc.anthropic_creds.for_user u))
    (start_follows : (s : RunnerStartSpec) (c : Option C)
      → Follows view (uc.runner.start s c)) where
  settle-Ends :
      (job : Job) (started : Result String) (s : System) (w : W)
      → Memᴰ job s.copies
      → Matches s (view w)
      → Ends s (view (settle uc job started w).1)
  unfolding settle
  settle-Ends job (err e) s w held same =
      let now : ℕ = (uc.clock.now w).0 in
      let w1 : W = (uc.clock.now w).1 in
      let timed = clock_follows s w same in
      let made = mark_failed job (error_text e) now in
      let (t, r, rows_stay, k_held) =
        changes_or_same timed.0 job made (Steps-copies job timed.1 held)
          (λ k failed. Move.fail (error_text e) now failed) in
      let (v, q, ends) =
        updates uc.jobs view shared (or_same made job) t w1 k_held (grown r rows_stay timed.2) in
      (v, Steps-trans timed.1 (Steps-trans r q), moved view ends (ground arith))
  settle-Ends job (ok c) s w held same =
      let now : ℕ = (uc.clock.now w).0 in
      let w1 : W = (uc.clock.now w).1 in
      let timed = clock_follows s w same in
      Ends-trans timed _ (elim (Result-cases (mark_running job c now)) [
        | inr (e, refused) ↦ (timed.0, here, moved view timed.2 (ground arith))
        | inl (k, marked) ↦
            let (v, q, ends) =
              updates uc.jobs view shared k (with_copy timed.0 k) w1 (Memᴰ.head refl)
                (carried timed.2) in
            (
              v,
              Steps-trans
                  (changes timed.0 job k (Steps-copies job timed.1 held) (Move.start c now marked))
                  q,
              moved view ends (ground arith),
            )
      ])

  repo_creds_for-Follows : (input : EnqueueJobInput) → Follows view (repo_creds_for uc input)
  unfolding repo_creds_for
  repo_creds_for-Follows input = repo_follows input.user_id input.repo

  anthropic_creds_for-Follows :
      (input : EnqueueJobInput) → Follows view (anthropic_creds_for uc input)
  unfolding anthropic_creds_for
  anthropic_creds_for-Follows input = anthropic_follows input.user_id

  launch-Ends :
      (input : EnqueueJobInput) (job : Job) (s : System) (w : W)
      → Memᴰ job s.copies
      → Matches s (view w)
      → Ends s (view (launch uc input job w).1)
  unfolding launch
  launch-Ends input job s w held same =
      let w1 : W = (repo_creds_for uc input w).1 in
      let w2 : W = (anthropic_creds_for uc input w1).1 in
      let asked = repo_creds_for-Follows input s w same in
      Ends-trans asked _ (elim (Result-cases (repo_creds_for uc input w).0) [
        | inr (e, no_repo) ↦ (asked.0, here, moved view asked.2 (ground arith))
        | inl (git, got) ↦
            let keyed = anthropic_creds_for-Follows input asked.0 w1 asked.2 in
            Ends-trans keyed _ (elim (Result-cases (anthropic_creds_for uc input w1).0) [
              | inr (e, no_key) ↦ (keyed.0, here, moved view keyed.2 (ground arith))
              | inl (key, there) ↦
                  let spec : RunnerStartSpec = start_spec uc input job git key in
                  let run : Result String × W = uc.runner.start spec uc.on_complete w2 in
                  let ran = start_follows spec uc.on_complete keyed.0 w2 keyed.2 in
                  let on = Steps-trans asked.1 (Steps-trans keyed.1 ran.1) in
                  let (v, r, ends) =
                    settle-Ends job run.0 ran.0 run.1 (Steps-copies job on held) ran.2 in
                  (v, Steps-trans ran.1 r, moved view ends (ground arith))
            ])
      ])

  -- The caps read the table only.
  capped :
      (input : EnqueueJobInput) (w : W)
      → ((at_user_cap uc input.user_id w).1 ≡ w) × ((at_global_cap uc w).1 ≡ w)
  unfolding at_user_cap at_global_cap
  capped input w = (
    ground (arith, count_user-alone uc.jobs (table view) shared.contract input.user_id w),
    ground (arith, count_all-alone uc.jobs (table view) shared.contract w),
  )

  admit-Ends :
      (input : EnqueueJobInput) (job : Job) (s : System) (w : W)
      → Memᴰ job s.copies
      → Matches s (view w)
      → Ends s (view (admit uc input job w).1)
  unfolding admit
  admit-Ends input job s w held same =
      let w1 : W = (at_user_cap uc input.user_id w).1 in
      let at1 : w1 ≡ w = (capped input w).0 in
      let at2 : (at_global_cap uc w1).1 ≡ w1 = (capped input w1).1 in
      let w2 : W = (at_global_cap uc w1).1 in
      elim (Result-cases (at_user_cap uc input.user_id w).0) [
        | inr (e, broken) ↦ (s, here, moved view same (ground arith))
        | inl (true, full) ↦ (s, here, moved view same (ground arith))
        | inl (false, room) ↦ elim (Result-cases (at_global_cap uc w1).0) [
          | inr (e, broken) ↦ (s, here, moved view same (ground arith))
          | inl (true, full) ↦ (s, here, moved view same (ground arith))
          | inl (false, free) ↦
              let (v, r, ends) =
                launch-Ends input job s w2 held (moved view same (sym (at2 ∙ at1))) in
              (v, r, moved view ends (ground arith))
        ]
      ]

  build_job-IsNew :
      (input : EnqueueJobInput) (id : String) (now : ℕ) → IsNew (build_job uc input id now)
  unfolding build_job
  build_job-IsNew input id now = built _ _ _ _ _ _ _ _ _ refl

  -- Where other goroutines take steps of the system within the calls of the ports, a whole
  -- submission is a sequence of such steps: a job is submitted, and its copy is moved as the
  -- lifecycle allows and written.
  pub enqueue-Follows : (input : EnqueueJobInput) → Follows view (execute uc input)
  unfolding execute
  enqueue-Follows input s w same =
      let now : ℕ = (uc.clock.now w).0 in
      let w1 : W = (uc.clock.now w).1 in
      let id : String = (uc.id_gen.new_job_id w1).0 in
      let w2 : W = (uc.id_gen.new_job_id w1).1 in
      let job : Job = build_job uc input id now in
      let w3 : W = (uc.jobs.create job w2).1 in
      elim (Bool-cases (rejects input)) [
        | inl bad ↦ (s, here, moved view same (ground arith))
        | inr good ↦
            let timed = clock_follows s w same in
            let named = ids_follows timed.0 w1 timed.2 in
            Ends-trans timed _ (
              Ends-trans named _ (elim (shared.contract.create_lem job w2) [
                | inr (e, taken) ↦ (named.0, here, moved view named.2 (ground arith))
                | inl (absent, created, added) ↦
                    let t = named.0 in
                    let first = later here (
                      submit job (build_job-IsNew input id now)
                        (ap (λ (f : Table). f job.id) named.2.same_rows ∙ absent)) in
                    let u : System = record {
                      rows = put job t.rows;
                      copies = job ∷ t.copies;
                      submitted = put job t.submitted;
                    } in
                    let (v, r, ends) = admit-Ends input job u w3 (Memᴰ.head refl) (record {
                      same_rows = ap (put job) named.2.same_rows ∙ sym added;
                      all_held = λ j m.
                          Memᴰ.tail
                            (named.2.all_held j (held_alone (shared.create_alone job w2) j m));
                    }) in
                    (v, Steps-trans first r, moved view ends (ground arith))
              ]))
      ]
