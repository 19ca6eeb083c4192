-- ===== src/Adapter/Http/Router/Isolation.antt =====
-- What the router lets a request see.
use agentic_delegator.Prelude.{
  String, Bool, ◌≡◌, refl, ◌⊎◌, inl, inr, All, List, [], ◌∷◌, Bool-cases, subst, sym, ◌||◌,
}
use agentic_delegator.Prelude.Int.{pos}
use agentic_delegator.Domain.Errors.{Error, is_error, not_found, forbidden, conflict, invalid_state}
use agentic_delegator.Domain.Job.{Job}
use agentic_delegator.Domain.ApiKey.{ApiKey}
use agentic_delegator.Exec.{Exec, State, Result, ok, err, Result-cases}
use agentic_delegator.Ports.Jobs.{Table, JobsContract}
use agentic_delegator.Usecase.Queries.{GetJobInput, ListJobsInput, get_job, list_jobs}
use agentic_delegator.Usecase.EnqueueJob
use agentic_delegator.Usecase.CancelJob
use agentic_delegator.Usecase.Settings.{set_anthropic, mint, revoke}
use agentic_delegator.Usecase.Queries.Own.{get_job-own, list_jobs-own}
use agentic_delegator.Adapter.Reply.{Reply, failed, with_code, try_call, on_result}
use agentic_delegator.Adapter.Http.Response.{
  Response, jobs, one_job, domain_error, error_response, respond,
}
use agentic_delegator.Adapter.Http.Jobs.{
  created, store_error, list_limit, enqueue_input, cancel_job, enqueue_job, get_job_handler,
  list_jobs_handler,
}
use agentic_delegator.Adapter.Http.Settings.{
  no_content, minted_key, set_anthropic_handler, revoke_handler, mint_handler,
}
use agentic_delegator.Adapter.Http.Pages.{
  Page, reply, settings_page, dashboard, settings, render, log_tail_page, log_tail,
  rest_of_settings, dashboard_page, status_page, job_log, failed_page, has_anthropic,
}
use agentic_delegator.Adapter.Http.Router.{
  Deps, Guarded, guarded, list_api_jobs, post_api_jobs, get_api_job, post_cancel, post_anthropic,
  post_api_keys, delete_api_key, get_dashboard, get_settings, get_status, get_log, handle, serve,
  bearer_or_session, unauthorized, jobs_shown, jobs_of_response, jobs_of_page,
}

module _ (P : Job → Type 0) where
  domain_error-shows : (e : Error) → All P (jobs_of_response (domain_error e))
  unfolding domain_error error_response
  domain_error-shows e = elim (Bool-cases (is_error e not_found)) [
    | inl missing ↦ rw missing tt
    | inr found ↦ elim (Bool-cases (is_error e forbidden)) [
      | inl barred ↦ rw (found, barred) tt
      | inr open_to ↦ elim (Bool-cases (is_error e conflict || is_error e invalid_state)) [
        | inl clash ↦ rw (found, open_to, clash) tt
        | inr bad ↦ rw (found, open_to, bad) tt
      ]
    ]
  ]

  respond-shows :
      {W A : Type 0} (bad : Error → Response) (f : A → Response) (m : Exec W A) (w : W)
      → ((e : Error) → All P (jobs_of_response (bad e)))
      → ((a : A) → (m w).0 ≡ ok a → All P (jobs_of_response (f a)))
      → All P (jobs_of_response (respond bad f m w).0)
  respond-shows bad f m w broken_shows shows = elim (Result-cases (m w).0) [
    | inl (a, done) ↦ rw done (shows a done)
    | inr (e, broken) ↦ rw broken (broken_shows e)
  ]

  -- A page that follows a call shows no more than the page of its result.
  try_call-shows :
      {W A : Type 0} (m : Exec W A) (bad : Error → Reply) (g : A → State W Page) (w : W)
      → ((a : A) (w' : W) → (m w).0 ≡ ok a → All P (jobs_of_page (g a w').0))
      → All P (jobs_of_page (try_call m (λ e. reply (bad e)) g w).0)
  try_call-shows m bad g w shows = elim (Result-cases (m w).0) [
    | inl (a, done) ↦ rw done (shows a (m w).1 done)
    | inr (e, broken) ↦ rw broken tt
  ]

abbrev Mine : String → Job → Type 0
Mine uid j = j.user_id ≡ uid

just : (uid : String) (j : Job) → Mine uid j → All (Mine uid) (j ∷ [])
just uid j h = (h, tt)

-- An answer that shows no job.
quiet :
    {W A : Type 0} (uid : String) (f : A → Response) (m : Exec W A) (w : W)
    → ((a : A) → jobs_of_response (f a) ≡ [])
    → All (Mine uid) (jobs_of_response (respond domain_error f m w).0)
quiet uid f m w silent =
    respond-shows (Mine uid) domain_error f m w (domain_error-shows (Mine uid))
      (λ a done. subst (All (Mine uid)) (sym (silent a)) tt)

settings-shows :
    {W : Type 0} (uid : String) (keys : List ApiKey) (has : Result Bool) (w : W)
    → All
        (Mine uid)
        (jobs_of_page (on_result (failed_page 500) (λ b v. (settings_page keys b, v)) has w).0)
settings-shows uid keys (ok b) w = tt
settings-shows uid keys (err e) w = tt

-- The job queries behind the router read one table.
pub record JobsBehind {W C R M A : Type 0} (deps : Deps W C R M A) (rows : W → Table) : Type 0 where
  pub api_get : JobsContract deps.jobs_handler.get.jobs rows
  pub api_list : JobsContract deps.jobs_handler.list.jobs rows
  pub page_get : JobsContract deps.status_page.get.jobs rows
  pub page_list : JobsContract deps.dashboard.list.jobs rows

module _ {W C R M A : Type 0} (deps : Deps W C R M A) (rows : W → Table)
    (behind : JobsBehind deps rows) where
  -- A handler behind the guard shows jobs of its user only.
  handle-own :
      (g : Guarded) (uid : String) (r : R) (w : W)
      → All (λ j. j.user_id ≡ uid) (jobs_shown (handle deps g uid r w).0)
  unfolding handle list_jobs_handler enqueue_job get_job_handler cancel_job set_anthropic_handler
      mint_handler revoke_handler dashboard settings render log_tail_page error_response
  handle-own list_api_jobs uid r w =
      let input : ListJobsInput = record { user_id = uid; limit = list_limit (deps.limit r) } in
      respond-shows (Mine uid) store_error (λ js. record { code = 200; body = jobs js })
        (list_jobs deps.jobs_handler.list input) w (λ e. tt)
        (list_jobs-own deps.jobs_handler.list rows behind.api_list input w)
  handle-own post_api_jobs uid r w = elim (Result-cases (deps.enqueue_body r)) [
    | inr (e, bad) ↦ rw bad tt
    | inl (body, read) ↦ rw read (
        quiet uid created (EnqueueJob.execute deps.jobs_handler.enqueue (enqueue_input uid body)) w
          (λ out. refl))
  ]
  handle-own (get_api_job id) uid r w =
      let input : GetJobInput = record { job_id = id; user_id = uid } in
      respond-shows (Mine uid) domain_error (λ j. record { code = 200; body = one_job j })
        (get_job deps.jobs_handler.get input) w (domain_error-shows (Mine uid))
        (λ j done.
          just uid j (get_job-own deps.jobs_handler.get rows behind.api_get input w j done))
  handle-own (post_cancel id) uid r w =
      quiet uid no_content
        (CancelJob.execute deps.jobs_handler.cancel (record { job_id = id; user_id = uid })) w
        (λ x. refl)
  handle-own post_anthropic uid r w = elim (Result-cases (deps.text_body r)) [
    | inr (e, bad) ↦ rw bad tt
    | inl (body, read) ↦ rw read (
        quiet uid no_content
          (set_anthropic deps.settings_handler.set_anthropic
            (record { user_id = uid; api_key = body }))
          w (λ x. refl))
  ]
  handle-own post_api_keys uid r w = elim (Result-cases (deps.text_body r)) [
    | inr (e, bad) ↦ rw bad tt
    | inl (body, read) ↦ rw read (
        quiet uid minted_key
          (mint deps.settings_handler.mint (record { user_id = uid; name = body })) w (λ out. refl))
  ]
  handle-own (delete_api_key id) uid r w =
      quiet uid no_content (revoke deps.settings_handler.revoke (record { id = id; user_id = uid }))
        w (λ x. refl)
  handle-own get_dashboard uid r w =
      let input : ListJobsInput = record { user_id = uid; limit = pos 0 } in
      try_call-shows (Mine uid) (list_jobs deps.dashboard.list input) (with_code 500)
        (λ js v. (dashboard_page js, v)) w
        (λ js w' done. list_jobs-own deps.dashboard.list rows behind.page_list input w js done)
  handle-own get_settings uid r w =
      try_call-shows (Mine uid) (deps.dashboard.keys.list_for_user uid) (with_code 500)
        (rest_of_settings deps.dashboard uid) w
        λ keys w' done.
          settings-shows uid keys
            (has_anthropic (deps.dashboard.secrets.get_anthropic_creds uid w').0)
            (deps.dashboard.secrets.get_anthropic_creds uid w').1
  handle-own (get_status id) uid r w =
      let input : GetJobInput = record { job_id = id; user_id = uid } in
      try_call-shows (Mine uid) (get_job deps.status_page.get input) (λ e. failed 404 "not found")
        (λ j. log_tail deps.status_page j (status_page j)) w
        (λ j w' done.
          just uid j (get_job-own deps.status_page.get rows behind.page_get input w j done))
  handle-own (get_log id) uid r w =
      let input : GetJobInput = record { job_id = id; user_id = uid } in
      try_call-shows (Mine uid) (get_job deps.status_page.get input) (λ e. failed 404 "not found")
        (λ j. log_tail deps.status_page j (job_log j)) w
        (λ j w' done.
          just uid j (get_job-own deps.status_page.get rows behind.page_get input w j done))

  -- Given that the job queries behind the router read one table that keeps the contract of the jobs
  -- port: behind the guard nothing happens for a request of no user but the look at it, and it is
  -- answered with 401; and for a request of a user, every job that a route shows, in its JSON, on its
  -- page or by its log, is that user's own.
  pub serve-guards :
      (g : Guarded) (r : R) (w : W)
      → ((uid : String) × ((deps.resolver r w).0 ≡ ok uid)
          × All (λ j. j.user_id ≡ uid) (jobs_shown (serve deps (guarded g) r w).0))
        ⊎ ((e : Error) × ((deps.resolver r w).0 ≡ err e)
            × (serve deps (guarded g) r w ≡ (unauthorized, (deps.resolver r w).1)))
  unfolding serve bearer_or_session
  serve-guards g r w = elim (Result-cases (deps.resolver r w).0) [
    | inl (uid, known) ↦ inl (uid, known, rw known (handle-own g uid r (deps.resolver r w).1))
    | inr (e, unknown) ↦ inr (e, unknown, rw unknown refl)
  ]
