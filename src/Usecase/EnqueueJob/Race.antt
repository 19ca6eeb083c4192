-- ===== src/Usecase/EnqueueJob/Race.antt =====
-- The runner's supervisor may report before `Execute` of core/usecase/enqueue_job.go goes on after
-- `Runner.Start`. `Execute` then writes its own copy of the job, read before the report.
use agentic_delegator.Prelude.{
  ℕ, String, true, ◌≡◌, ◌≢◌, refl, inl, inr, some, arith, ap, eq_iff, ◌↔◌,
}
use agentic_delegator.Domain.Job.{Job, queued, running, mark_running, is_terminal}
use agentic_delegator.Domain.Job.Lifecycle.{Reach, Reach-terminal}
use agentic_delegator.Ports.Jobs.{Table, JobsContract, put_self}
use Prim.Native.String.{len}
use text.Mathlib.TextPositions.{len-append}
use agentic_delegator.Prelude.Text.{◌<>◌}
use agentic_delegator.Go.Path.{join_path-ne_empty}
use agentic_delegator.Domain.Credentials.{GitCreds, AnthropicCreds}
use agentic_delegator.Exec.{ok}
use agentic_delegator.Usecase.EnqueueJob.{
  EnqueueJob, EnqueueJobInput, EnqueueJobOutput, settle, build_job, start_spec,
}
use agentic_delegator.Usecase.EnqueueJob.Effect.{mark_running-queued}

not-Reach-running : (old k : Job) → is_terminal old ≡ true → k.status ≡ running → ¬ (Reach old k)
unfolding is_terminal
not-Reach-running old k done live r = let same : k ≡ old = Reach-terminal done r in ground arith

module _ {W C : Type 0} (uc : EnqueueJob W C) (rows : W → Table)
    (contract : JobsContract uc.jobs rows) where
  open contract use {update_lem}

  -- Where the row of a job has become terminal by the time its container is known to have started,
  -- and `Execute` then ends without error, the row is stored as running again, which no sequence
  -- of the job's own methods can do.
  pub start_overwrites :
      (job old : Job) (container_id : String) (w : W) (out : EnqueueJobOutput)
      → job.status ≡ queued
      → rows w job.id ≡ some old
      → is_terminal old ≡ true
      → (settle uc job (ok container_id) w).0 ≡ ok out
      → (k : Job) × (rows (settle uc job (ok container_id) w).1 job.id ≡ some k)
        × (k.status ≡ running)
        × ¬ (Reach old k)
  unfolding settle
  start_overwrites job old c w out fresh there done fine =
      let now : ℕ = (uc.clock.now w).0 in
      let w1 : W = (uc.clock.now w).1 in
      let k : Job = record job { status = running; container_id = c; started_at = some now } in
      let marked : mark_running job c now ≡ ok k = mark_running-queued job c now fresh in
      elim (update_lem k w1) [
        | inl (x, present, updated, written) ↦
            (k, ground (arith, put_self k (rows w1)), refl, not-Reach-running old k done refl)
        | inr (e, broken) ↦ absurd (ground arith)
      ]

module _ {W C : Type 0} (uc : EnqueueJob W C) where
  -- The runner is told to write its log to the path that the job stores exactly when the caller
  -- gave a path; the source means to give it the derived path too.
  pub log_path-start_spec :
      (input : EnqueueJobInput) (id : String) (now : ℕ) (git : GitCreds) (key : AnthropicCreds)
      → ((start_spec uc input (build_job uc input id now) git key).log_path
          ≡ (build_job uc input id now).log_path)
        ↔ (input.log_path ≢ "")
  unfolding start_spec build_job
  log_path-start_spec input id now git key = (
    λ same empty.
        join_path-ne_empty uc.log_dir (id <> ".log")
          (λ h. absurd (omega (arith, ap len h, len-append id ".log")))
          (ground (arith, eq_iff input.log_path "")),
    λ given. ground (arith, eq_iff input.log_path ""),
  )
