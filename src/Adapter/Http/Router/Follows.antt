-- ===== src/Adapter/Http/Router/Follows.antt =====
-- The requests that the router serves, beside other goroutines over the jobs table.
use agentic_delegator.Prelude.{String, ◌||◌, ◌≡◌, inl, inr, Option, some, List, Option-cases}
use agentic_delegator.Prelude.Text.{is_empty}
use agentic_delegator.Prelude.Int.{pos}
use agentic_delegator.Domain.Errors.{sentinel, invalid_input}
use agentic_delegator.Domain.ApiKey.{ApiKey}
use agentic_delegator.Domain.Credentials.{AnthropicCreds}
use agentic_delegator.Domain.Job.{Job}
use agentic_delegator.Exec.{Exec, Result-cases}
use agentic_delegator.Ports.Runner.{RunnerStartSpec}
use agentic_delegator.Usecase.Concurrent.{here}
use agentic_delegator.Usecase.Concurrent.Follows.{Follows, View, SharedJobs, table, Ends-trans}
use agentic_delegator.Usecase.Concurrent.Follows.Cancel.{cancel-Follows}
use agentic_delegator.Usecase.Concurrent.Follows.Enqueue.{enqueue-Follows}
use agentic_delegator.Usecase.Queries.{GetJobInput, ListJobsInput, get_job, list_jobs}
use agentic_delegator.Usecase.Settings.{set_anthropic, revoke}
use agentic_delegator.Adapter.Reply.{redirect, try_call}
use agentic_delegator.Adapter.Http.Jobs.{
  list_limit, enqueue_input, cancel_job, enqueue_job, get_job_handler, list_jobs_handler,
}
use agentic_delegator.Adapter.Http.Settings.{set_anthropic_handler, revoke_handler, mint_handler}
use agentic_delegator.Adapter.Http.Pages.{
  Page, reply, landing_page, dashboard_page, status_page, job_log, failed_page, missing, landing,
  dashboard, settings, render, log_tail, log_tail_page, rest_of_settings, has_anthropic,
}
use agentic_delegator.Adapter.Http.Router.{
  Deps, Guarded, Route, healthz, get_landing, static_file, mounted, guarded, list_api_jobs,
  post_api_jobs, get_api_job, post_cancel, post_anthropic, post_api_keys, delete_api_key,
  get_dashboard, get_settings, get_status, get_log, handle, serve, bearer_or_session,
}
use agentic_delegator.Adapter.Http.Router.Isolation.{JobsBehind}
use agentic_delegator.Adapter.Http.Router.Calls.{
  try_call-Follows, guard-Follows, get_job-Follows, list_jobs-Follows, mint-Follows,
}

-- What the ports behind the router do, other than the jobs repositories: they go on by steps.
pub record PortsFollow {W C R M A : Type 0} (deps : Deps W C R M A) (view : W → View) : Type 0 where
  pub resolve : (r : R) → Follows view (deps.resolver r)
  pub enqueue_clock : Follows view deps.jobs_handler.enqueue.clock.now
  pub enqueue_id : Follows view deps.jobs_handler.enqueue.id_gen.new_job_id
  pub repo_creds : (u r : String) → Follows view (deps.jobs_handler.enqueue.repo_creds.for_repo u r)
  pub anthropic_creds :
      (u : String) → Follows view (deps.jobs_handler.enqueue.anthropic_creds.for_user u)
  pub start_runner :
      (s : RunnerStartSpec) (c : Option C)
      → Follows view (deps.jobs_handler.enqueue.runner.start s c)
  pub stop_runner : (c : String) → Follows view (deps.jobs_handler.cancel.runner.stop c)
  pub cancel_clock : Follows view deps.jobs_handler.cancel.clock.now
  pub set_secret :
      (u : String) (c : AnthropicCreds)
      → Follows view (deps.settings_handler.set_anthropic.secrets.set_anthropic_creds u c)
  pub mint_plaintext : Follows view deps.settings_handler.mint.id_gen.new_api_key_plaintext
  pub mint_id : Follows view deps.settings_handler.mint.id_gen.new_api_key_id
  pub mint_clock : Follows view deps.settings_handler.mint.clock.now
  pub create_key : (k : ApiKey) → Follows view (deps.settings_handler.mint.keys.create k)
  pub delete_key :
      (id user : String) → Follows view (deps.settings_handler.revoke.keys.delete id user)
  pub list_keys : (u : String) → Follows view (deps.dashboard.keys.list_for_user u)
  pub get_secret : (u : String) → Follows view (deps.dashboard.secrets.get_anthropic_creds u)
  pub visit :
      (resolve : R → Exec W String) (r : R)
      → deps.dashboard.resolver ≡ some resolve
      → Follows view (resolve r)
  pub read_file : (path : String) → Follows view (deps.status_page.read_file path)
  pub health : (check : Exec W (Unit {0})) → deps.health_check ≡ some check → Follows view check
  pub mounted_routes : (m : M) (r : R) → Follows view (deps.routes m r)

module _ {W C R M A : Type 0} (deps : Deps W C R M A) (view : W → View)
    (behind : JobsBehind deps (table view))
    (enqueue_jobs : SharedJobs deps.jobs_handler.enqueue.jobs view)
    (cancel_jobs : SharedJobs deps.jobs_handler.cancel.jobs view)
    (ports : PortsFollow deps view) where
  log_tail-Follows :
      (j : Job) (shown : String → Page) → Follows view (log_tail deps.status_page j shown)
  log_tail-Follows j shown = ports.read_file j.log_path

  rest_of_settings-Follows :
      (uid : String) (keys : List ApiKey) → Follows view (rest_of_settings deps.dashboard uid keys)
  rest_of_settings-Follows uid keys s w same =
      let read = ports.get_secret uid s w same in
      elim (Result-cases (has_anthropic (deps.dashboard.secrets.get_anthropic_creds uid w).0)) [
        | inl (has, done) ↦ rw done read
        | inr (e, broken) ↦ rw broken read
      ]

  -- A page of one job, with its log.
  shown_page-Follows :
      (input : GetJobInput) (shown : Job → String → Page)
      → Follows view (
          try_call
            (get_job deps.status_page.get input)
            missing
            (λ j. log_tail deps.status_page j (shown j)))
  shown_page-Follows input shown =
      try_call-Follows view (get_job deps.status_page.get input) missing
        (λ j. log_tail deps.status_page j (shown j))
        (get_job-Follows view deps.status_page.get input behind.page_get)
        (λ j. log_tail-Follows j (shown j))

  handle-Follows : (g : Guarded) (uid : String) (r : R) → Follows view (handle deps g uid r)
  unfolding handle list_jobs_handler enqueue_job get_job_handler cancel_job set_anthropic_handler
      mint_handler revoke_handler dashboard settings render log_tail_page set_anthropic revoke
  handle-Follows list_api_jobs uid r s w same =
      list_jobs-Follows view deps.jobs_handler.list
        (record { user_id = uid; limit = list_limit (deps.limit r) }) behind.api_list s w same
  handle-Follows post_api_jobs uid r s w same = elim (Result-cases (deps.enqueue_body r)) [
    | inr (e, bad) ↦ rw bad (s, here, same)
    | inl (body, read) ↦ rw read (
        enqueue-Follows deps.jobs_handler.enqueue view enqueue_jobs ports.enqueue_clock
          ports.enqueue_id ports.repo_creds ports.anthropic_creds ports.start_runner
          (enqueue_input uid body) s w same)
  ]
  handle-Follows (get_api_job id) uid r s w same =
      get_job-Follows view deps.jobs_handler.get (record { job_id = id; user_id = uid })
        behind.api_get s w same
  handle-Follows (post_cancel id) uid r s w same =
      cancel-Follows deps.jobs_handler.cancel view cancel_jobs ports.stop_runner ports.cancel_clock
        (record { job_id = id; user_id = uid }) s w same
  handle-Follows post_anthropic uid r s w same = elim (Result-cases (deps.text_body r)) [
    | inr (e, bad) ↦ rw bad (s, here, same)
    | inl (key, read) ↦ rw read (
        guard-Follows view (is_empty uid || is_empty key) (sentinel invalid_input)
          (deps.settings_handler.set_anthropic.secrets.set_anthropic_creds uid
            (record { api_key = key }))
          (ports.set_secret uid (record { api_key = key })) s w same)
  ]
  handle-Follows post_api_keys uid r s w same = elim (Result-cases (deps.text_body r)) [
    | inr (e, bad) ↦ rw bad (s, here, same)
    | inl (name, read) ↦ rw read (
        mint-Follows view deps.settings_handler.mint (record { user_id = uid; name = name })
          ports.mint_plaintext ports.mint_id ports.mint_clock ports.create_key s w same)
  ]
  handle-Follows (delete_api_key id) uid r s w same =
      guard-Follows view (is_empty id || is_empty uid) (sentinel invalid_input)
        (deps.settings_handler.revoke.keys.delete id uid) (ports.delete_key id uid) s w same
  handle-Follows get_dashboard uid r s w same =
      let input : ListJobsInput = record { user_id = uid; limit = pos 0 } in
      try_call-Follows view (list_jobs deps.dashboard.list input) (failed_page 500)
        (λ js w. (dashboard_page js, w))
        (list_jobs-Follows view deps.dashboard.list input behind.page_list)
        (λ js t v h. (t, here, h)) s w same
  handle-Follows get_settings uid r s w same =
      try_call-Follows view (deps.dashboard.keys.list_for_user uid) (failed_page 500)
        (rest_of_settings deps.dashboard uid) (ports.list_keys uid) (rest_of_settings-Follows uid) s
        w same
  handle-Follows (get_status id) uid r s w same =
      shown_page-Follows (record { job_id = id; user_id = uid }) status_page s w same
  handle-Follows (get_log id) uid r s w same =
      shown_page-Follows (record { job_id = id; user_id = uid }) job_log s w same

  -- Whatever route is served, the jobs table goes on by steps.
  pub serve-Follows : (route : Route M) (r : R) → Follows view (serve deps route r)
  unfolding serve bearer_or_session landing
  serve-Follows healthz r s w same = elim (Option-cases deps.health_check) [
    | inl unchecked ↦ rw unchecked (s, here, same)
    | inr (check, there) ↦ rw there (ports.health check there s w same)
  ]
  serve-Follows get_landing r s w same = elim (Option-cases deps.dashboard.resolver) [
    | inl unknown ↦ rw unknown (s, here, same)
    | inr (resolve, there) ↦ rw there (
        try_call-Follows view (resolve r) (λ e. landing_page)
          (λ uid w'. (reply (redirect "/dashboard"), w')) (ports.visit resolve r there)
          (λ uid t v h. (t, here, h)) s w same)
  ]
  serve-Follows (static_file path) r s w same = (s, here, same)
  serve-Follows (mounted m) r s w same = ports.mounted_routes m r s w same
  serve-Follows (guarded g) r s w same =
      let known = ports.resolve r s w same in
      Ends-trans known _ (elim (Result-cases (deps.resolver r w).0) [
        | inl (uid, user) ↦ rw user (handle-Follows g uid r known.0 (deps.resolver r w).1 known.2)
        | inr (e, nobody) ↦ rw nobody (known.0, here, known.2)
      ])
