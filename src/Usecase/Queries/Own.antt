-- ===== src/Usecase/Queries/Own.antt =====
-- The queries give a user's own jobs only.
use agentic_delegator.Prelude.{◌≡◌, inl, inr, All, All-map, ◌||◌, List, Bool-cases, arith, subst}
use agentic_delegator.Prelude.Text.{is_empty}
use agentic_delegator.Domain.Job.{Job}
use agentic_delegator.Exec.{ok}
use agentic_delegator.Ports.Jobs.{Table, JobsContract, owned-eq-ok}
use agentic_delegator.Usecase.Queries.{
  GetJob, GetJobInput, ListJobs, ListJobsInput, get_job, list_jobs, effective_limit,
}

pub get_job-own :
    {W : Type 0} (uc : GetJob W) (rows : W → Table) (contract : JobsContract uc.jobs rows)
    (input : GetJobInput) (w : W) (j : Job)
    → (get_job uc input w).0 ≡ ok j
    → j.user_id ≡ input.user_id
unfolding get_job
get_job-own uc rows contract input w j done =
    elim (Bool-cases (is_empty input.job_id || is_empty input.user_id)) [
      | inl bad ↦ absurd (ground arith)
      | inr fine ↦ elim (contract.get_for_user_lem input.job_id input.user_id w) [
        | inr (m, broken) ↦ absurd (ground arith)
        | inl answer ↦ (owned-eq-ok input.user_id (rows w input.job_id) j (ground arith)).1
      ]
    ]

pub list_jobs-own :
    {W : Type 0} (uc : ListJobs W) (rows : W → Table) (contract : JobsContract uc.jobs rows)
    (input : ListJobsInput) (w : W) (js : List Job)
    → (list_jobs uc input w).0 ≡ ok js
    → All (λ j. j.user_id ≡ input.user_id) js
unfolding list_jobs
list_jobs-own uc rows contract input w js done = elim (Bool-cases (is_empty input.user_id)) [
  | inl bad ↦ absurd (ground arith)
  | inr fine ↦ elim (contract.list_for_user_lem input.user_id (effective_limit input.limit) w) [
    | inr (m, broken) ↦ absurd (ground arith)
    | inl (ks, listed, latest) ↦
        let same : ks ≡ js = ground arith in
        subst (All (λ (j : Job). j.user_id ≡ input.user_id)) same
          (All-map _ _ ks (λ j here. here.1) latest.0)
  ]
]
