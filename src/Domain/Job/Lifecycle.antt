-- ===== src/Domain/Job/Lifecycle.antt =====
-- What holds of a job through any sequence of the methods of core/domain/job.go.
pub mod Ends
use agentic_delegator.Prelude.{
  ℕ, suc, ◌+◌, ◌≤◌, ◌<◌, String, true, false, ◌≡◌, ◌≢◌, ◌↔◌, ◌∙◌, ap, sym, refl, none, some, arith,
  is_some,
}
use mathlib.Core.Bool.{false≢true}
use agentic_delegator.Domain.Errors.{sentinel, invalid_state}
use agentic_delegator.Domain.Spec.{SpecSource}
use agentic_delegator.Domain.Job.{
  Job, JobStatus, queued, running, succeeded, failed, unknown, new_job, is_terminal, mark_running,
  mark_succeeded, mark_failed, mark_cancelled,
}
use agentic_delegator.Exec.{ok, err}

-- One call of a method that returned no error.
pub data Move (j k : Job) : Type 0 where
  start : (container_id : String) (now : ℕ) → mark_running j container_id now ≡ ok k → Move j k
  succeed : (pr_url : String) (now : ℕ) → mark_succeeded j pr_url now ≡ ok k → Move j k
  fail : (reason : String) (now : ℕ) → mark_failed j reason now ≡ ok k → Move j k
  cancel : (now : ℕ) → mark_cancelled j now ≡ ok k → Move j k

pub data Reach (j : Job) : Job → Type 0 where
  here : Reach j j
  next : {k l : Job} → Reach j k → Move k l → Reach j l

abbrev pub moves : {j k : Job} → Reach j k → ℕ
moves here = 0
moves (next r m) = suc (moves r)

-- How far a status is along the lifecycle.
abbrev pub rank : JobStatus → ℕ
rank queued = 0
rank running = 1
rank (unknown s other) = 1
rank _ = 2

-- The fields that only some statuses fill.
pub record IsConsistent (j : Job) : Type 0 where
  pub finished_exactly : is_some j.finished_at ≡ is_terminal j
  pub queued_blank : j.status ≡ queued → (j.container_id ≡ "") × (j.started_at ≡ none)
  pub running_started : j.status ≡ running → is_some j.started_at ≡ true
  pub succeeded_started : j.status ≡ succeeded → is_some j.started_at ≡ true
  pub pr_url_only : j.pr_url ≢ "" → j.status ≡ succeeded
  pub error_only : j.error ≢ "" → j.status ≡ failed

-- The fields that no method changes.
pub record SameTask (j k : Job) : Type 0 where
  pub same_id : j.id ≡ k.id
  pub same_user : j.user_id ≡ k.user_id
  pub same_repo : j.repo ≡ k.repo
  pub same_base : j.base_branch ≡ k.base_branch
  pub same_work : j.work_branch ≡ k.work_branch
  pub same_spec : j.spec ≡ k.spec
  pub same_model : j.model_override ≡ k.model_override
  pub same_log : j.log_path ≡ k.log_path
  pub same_created : j.created_at ≡ k.created_at

abbrev pub IsKnown : JobStatus → Type 0
IsKnown (unknown s other) = ⊥
IsKnown _ = Unit

new_job-IsConsistent :
    (id user_id repo base work : String) (spec : SpecSource) (model : String) (now : ℕ)
    → IsConsistent (new_job id user_id repo base work spec model now)
unfolding new_job is_terminal
new_job-IsConsistent id user_id repo base work spec model now = ground arith

Move-IsConsistent : {j k : Job} → Move j k → IsConsistent j → IsConsistent k
unfolding mark_running mark_succeeded mark_failed mark_cancelled is_terminal
Move-IsConsistent (start c t e) h = ground arith
Move-IsConsistent (succeed u t e) h = ground arith
Move-IsConsistent (fail m t e) h = ground arith
Move-IsConsistent (cancel t e) h = ground arith

pub Move-SameTask : {j k : Job} → Move j k → SameTask j k
unfolding mark_running mark_succeeded mark_failed mark_cancelled is_terminal
Move-SameTask (start c t e) = ground arith
Move-SameTask (succeed u t e) = ground arith
Move-SameTask (fail m t e) = ground arith
Move-SameTask (cancel t e) = ground arith

pub Move-rank : {j k : Job} → Move j k → rank j.status < rank k.status
unfolding mark_running mark_succeeded mark_failed mark_cancelled is_terminal
Move-rank (start c t e) = ground arith
Move-rank (succeed u t e) = ground arith
Move-rank (fail m t e) = ground arith
Move-rank (cancel t e) = ground arith

pub Reach-IsConsistent : {j k : Job} → IsConsistent j → Reach j k → IsConsistent k
Reach-IsConsistent h here = h
Reach-IsConsistent h (next r m) = Move-IsConsistent m (Reach-IsConsistent h r)

pub SameTask-refl : (j : Job) → SameTask j j
SameTask-refl j = ground arith

pub SameTask-trans : {j k l : Job} → SameTask j k → SameTask k l → SameTask j l
SameTask-trans h g = ground arith

pub Reach-SameTask : {j k : Job} → Reach j k → SameTask j k
Reach-SameTask {j} here = SameTask-refl j
Reach-SameTask (next r m) = SameTask-trans (Reach-SameTask r) (Move-SameTask m)

pub moves-rank : {j k : Job} (r : Reach j k) → rank j.status + moves r ≤ rank k.status
moves-rank here = omega arith
moves-rank (next r m) = omega (arith, moves-rank r, Move-rank m)

pub rank-le : (s : JobStatus) → rank s ≤ 2
rank-le s = ground arith

-- A job that any sequence of successful method calls makes of a new one is consistent (a finish
-- time exactly when terminal, a start time when running or succeeded, a PR URL only when
-- succeeded, an error only when failed), is still the task that was submitted, and at most two
-- calls were made.
pub Reach-new_job :
    (id user_id repo base work : String) (spec : SpecSource) (model : String) (now : ℕ) {k : Job}
    → (r : Reach (new_job id user_id repo base work spec model now) k)
    → IsConsistent k × SameTask (new_job id user_id repo base work spec model now) k × (moves r ≤ 2)
unfolding new_job
Reach-new_job id user_id repo base work spec model now {k} r = (
  Reach-IsConsistent (new_job-IsConsistent id user_id repo base work spec model now) r,
  Reach-SameTask r,
  omega (arith, moves-rank r, rank-le k.status),
)

-- A job accepts some method call exactly when it is not terminal.
pub Move-iff_not_terminal : (j : Job) → is_terminal j ≡ false ↔ ((k : Job) × Move j k)
unfolding mark_running mark_succeeded mark_failed mark_cancelled is_terminal
Move-iff_not_terminal j = (
  λ live.
      (record j { status = failed; error = ""; finished_at = some 0 }, fail "" 0 (ground arith)),
  λ (k, m). source m,
)
  where
    source : {k : Job} → Move j k → is_terminal j ≡ false
    source (start c t e) = ground arith
    source (succeed u t e) = ground arith
    source (fail r t e) = ground arith
    source (cancel t e) = ground arith

-- A terminal job answers every method with `ErrInvalidState`, whatever the arguments.
pub terminal_refuses :
    (j : Job) (s : String) (t : ℕ)
    → is_terminal j ≡ true
    → (mark_running j s t ≡ err (sentinel invalid_state))
      × (mark_succeeded j s t ≡ err (sentinel invalid_state))
      × (mark_failed j s t ≡ err (sentinel invalid_state))
      × (mark_cancelled j t ≡ err (sentinel invalid_state))
unfolding mark_running mark_succeeded mark_failed mark_cancelled is_terminal
terminal_refuses j s t done = ground arith

-- No sequence of method calls leads away from a terminal job.
pub Reach-terminal : {j k : Job} → is_terminal j ≡ true → Reach j k → k ≡ j
Reach-terminal done here = refl
Reach-terminal {j} done (next {k = k} r m) =
    let same : k ≡ j = Reach-terminal done r in
    let live : is_terminal k ≡ false = (Move-iff_not_terminal k).1 (_, m) in
    absurd (false≢true (sym live ∙ ap is_terminal same ∙ done))
