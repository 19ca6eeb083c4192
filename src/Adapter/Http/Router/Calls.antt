-- ===== src/Adapter/Http/Router/Calls.antt =====
-- What a handler calls, beside other goroutines over the jobs table.
use agentic_delegator.Prelude.{
  ℕ, String, Bool, true, false, ◌||◌, sym, ap, inl, inr, arith, Bool-cases, if◌then◌else◌,
}
use agentic_delegator.Prelude.Text.{is_empty}
use agentic_delegator.Domain.Errors.{Error}
use agentic_delegator.Domain.ApiKey.{ApiKey, new_api_key}
use agentic_delegator.Exec.{Exec, State, raise, Result-cases}
use agentic_delegator.Ports.Jobs.{JobsContract}
use agentic_delegator.Usecase.Concurrent.{here}
use agentic_delegator.Usecase.Concurrent.Follows.{Follows, View, table, moved, Ends-trans}
use agentic_delegator.Usecase.Queries.{
  GetJob, GetJobInput, ListJobs, ListJobsInput, get_job, list_jobs, effective_limit,
}
use agentic_delegator.Usecase.Settings.{MintApiKey, MintApiKeyInput, mint}
use agentic_delegator.Adapter.Reply.{try_call}

module _ {W A B : Type 0} (view : W → View) where
  pub try_call-Follows :
      (m : Exec W A) (f : Error → B) (g : A → State W B)
      → Follows view m
      → ((a : A) → Follows view (g a))
      → Follows view (try_call m f g)
  try_call-Follows m f g called after s w same =
      let first = called s w same in
      Ends-trans first _ (elim (Result-cases (m w).0) [
        | inl (a, done) ↦ rw done (after a first.0 (m w).1 first.2)
        | inr (e, broken) ↦ rw broken (first.0, here, first.2)
      ])

module _ {W : Type 0} (view : W → View) where
  -- A call that leaves the world alone where it fails a test first.
  pub guard-Follows :
      {A : Type 0} (bad : Bool) (e : Error) (m : Exec W A)
      → Follows view m
      → Follows view (if bad then raise e else m)
  guard-Follows true e m called s w same = (s, here, same)
  guard-Follows false e m called s w same = called s w same

  pub get_job-Follows :
      (uc : GetJob W) (input : GetJobInput)
      → JobsContract uc.jobs (table view)
      → Follows view (get_job uc input)
  unfolding get_job
  get_job-Follows uc input contract =
      guard-Follows _ _ (uc.jobs.get_for_user input.job_id input.user_id) λ s w same.
        elim (contract.get_for_user_lem input.job_id input.user_id w) [
          | inl answer ↦ (s, here, moved view same (ap (λ v. v.1) (sym answer)))
          | inr (m, broken) ↦ (s, here, moved view same (ap (λ v. v.1) (sym broken)))
        ]

  pub list_jobs-Follows :
      (uc : ListJobs W) (input : ListJobsInput)
      → JobsContract uc.jobs (table view)
      → Follows view (list_jobs uc input)
  unfolding list_jobs
  list_jobs-Follows uc input contract =
      guard-Follows _ _ (uc.jobs.list_for_user input.user_id (effective_limit input.limit))
        λ s w same.
          elim (contract.list_for_user_lem input.user_id (effective_limit input.limit) w) [
            | inl (js, answer, latest) ↦ (s, here, moved view same (ap (λ v. v.1) (sym answer)))
            | inr (m, broken) ↦ (s, here, moved view same (ap (λ v. v.1) (sym broken)))
          ]

  pub mint-Follows :
      (uc : MintApiKey W) (input : MintApiKeyInput)
      → Follows view uc.id_gen.new_api_key_plaintext
      → Follows view uc.id_gen.new_api_key_id
      → Follows view uc.clock.now
      → ((k : ApiKey) → Follows view (uc.keys.create k))
      → Follows view (mint uc input)
  unfolding mint
  mint-Follows uc input plaintext_follows id_follows clock_follows create_follows s w same =
      let generated : String × String = (uc.id_gen.new_api_key_plaintext w).0 in
      let w1 : W = (uc.id_gen.new_api_key_plaintext w).1 in
      let id : String = (uc.id_gen.new_api_key_id w1).0 in
      let w2 : W = (uc.id_gen.new_api_key_id w1).1 in
      let now : ℕ = (uc.clock.now w2).0 in
      let w3 : W = (uc.clock.now w2).1 in
      let k : ApiKey = new_api_key id input.user_id input.name generated.1 generated.0 now in
      elim (Bool-cases (is_empty input.user_id || is_empty input.name)) [
        | inl bad ↦ (s, here, moved view same (ground arith))
        | inr good ↦
            let made = plaintext_follows s w same in
            let named = id_follows made.0 w1 made.2 in
            let timed = clock_follows named.0 w2 named.2 in
            let created = create_follows k timed.0 w3 timed.2 in
            Ends-trans made _ (
              Ends-trans named _ (
                Ends-trans timed _ (
                  Ends-trans created _ (elim (Result-cases (uc.keys.create k w3).0) [
                    | inl (x, done) ↦ (created.0, here, moved view created.2 (ground arith))
                    | inr (e, broken) ↦ (created.0, here, moved view created.2 (ground arith))
                  ]))))
      ]
