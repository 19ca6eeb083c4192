-- ===== src/Adapter/Http/Router.antt =====
-- core/adapter/http/router.go: which handler answers a route, and behind which guard. Which route a
-- method and a path belong to is chi's choice, so the model starts at the route.
pub mod Isolation
pub mod Calls
pub mod Follows
pub mod Served
use agentic_delegator.Prelude.{ℕ, String, Bool, true, false, Option, none, some, List, [], ◌∷◌}
use agentic_delegator.Prelude.Int.{ℤ}
use agentic_delegator.Domain.Errors.{Error}
use agentic_delegator.Domain.Job.{Job}
use agentic_delegator.Exec.{Exec, State, Result, ok, err}
use agentic_delegator.Adapter.Reply.{Reply, failed}
use agentic_delegator.Adapter.Http.Response.{Response, one_job, jobs}
use agentic_delegator.Adapter.Http.Jobs.{
  JobsHandler, EnqueueBody, cancel_job, enqueue_job, get_job_handler, list_jobs_handler,
}
use agentic_delegator.Adapter.Http.Settings.{
  SettingsHandler, set_anthropic_handler, revoke_handler, mint_handler,
}
use agentic_delegator.Adapter.Http.Pages.{
  Page, DashboardHandler, StatusPage, reply, landing_page, dashboard_page, settings_page,
  status_page, job_log, plain, landing, dashboard, settings, render, log_tail_page,
}

-- The routes behind the guard, with the ID in their path.
pub data Guarded : Type 0 where
  list_api_jobs post_api_jobs : Guarded
  get_api_job post_cancel : String → Guarded
  post_anthropic post_api_keys : Guarded
  delete_api_key : String → Guarded
  get_dashboard get_settings : Guarded
  get_status get_log : String → Guarded

-- The public routes. Those that the composition root mounts are its own.
pub data Route (M : Type 0) : Type 0 where
  healthz get_landing : Route M
  static_file : String → Route M
  mounted : M → Route M
  guarded : Guarded → Route M

pub data Written (A : Type 0) : Type 0 where
  json : Response → Written A
  page : Page → Written A
  file : String → Written A
  other : A → Written A

-- `M` and `A` are the mounter's routes and what they write; `R` is the type of requests, of which
-- `body` and `limit` and the others are what the handlers decode.
pub record Deps (W C R M A : Type 0) : Type 0 where
  pub resolver : R → Exec W String
  pub jobs_handler : JobsHandler W C
  pub settings_handler : SettingsHandler W
  pub status_page : StatusPage W
  pub dashboard : DashboardHandler W R
  pub routes : M → R → State W A
  pub health_check : Option (Exec W (Unit {0}))
  pub enqueue_body : R → Result EnqueueBody
  pub limit : R → Option ℤ
  pub text_body : R → Result String

abbrev health : {A : Type 0} → Result (Unit {0}) → Written A
health (ok x) = page (plain "ok")
health (err e) = page (reply (failed 503 "unhealthy"))

abbrev healthy : {W A : Type 0} → Option (Exec W (Unit {0})) → State W (Written A)
healthy none w = (page (plain "ok"), w)
healthy (some check) w = let (r, w') = check w in (health r, w')

abbrev pub unauthorized : {A : Type 0} → Written A
unauthorized = page (reply (failed 401 "{\"error\":\"unauthorized\"}"))

-- BearerOrSession of core/adapter/http/middleware.go: the next handler runs for the user that the
-- request resolves to.
abbrev admit : {W A : Type 0} → (String → State W (Written A)) → Result String → State W (Written A)
admit next (ok uid) w = next uid w
admit next (err e) w = (unauthorized, w)

unfoldable pub bearer_or_session :
    {W R A : Type 0}
    → (R → Exec W String)
    → R
    → (String → State W (Written A))
    → State W (Written A)
bearer_or_session resolve req next w = let (r, w') = resolve req w in admit next r w'

module _ {W A B : Type 0} where
  abbrev writes : (A → B) → State W A → State W B
  writes f m w = let (a, w') = m w in (f a, w')

module _ {W C R M A : Type 0} (deps : Deps W C R M A) where
  -- A handler behind the guard, for the user of the request's context.
  unfoldable pub handle : Guarded → String → R → State W (Written A)
  handle list_api_jobs uid r = writes json (list_jobs_handler deps.jobs_handler uid (deps.limit r))
  handle post_api_jobs uid r = writes json (enqueue_job deps.jobs_handler uid (deps.enqueue_body r))
  handle (get_api_job id) uid r = writes json (get_job_handler deps.jobs_handler uid id)
  handle (post_cancel id) uid r = writes json (cancel_job deps.jobs_handler uid id)
  handle post_anthropic uid r =
      writes json (set_anthropic_handler deps.settings_handler uid (deps.text_body r))
  handle post_api_keys uid r =
      writes json (mint_handler deps.settings_handler uid (deps.text_body r))
  handle (delete_api_key id) uid r = writes json (revoke_handler deps.settings_handler uid id)
  handle get_dashboard uid r = writes page (dashboard deps.dashboard uid)
  handle get_settings uid r = writes page (settings deps.dashboard uid)
  handle (get_status id) uid r = writes page (render deps.status_page uid id)
  handle (get_log id) uid r = writes page (log_tail_page deps.status_page uid id)

  unfoldable pub serve : Route M → R → State W (Written A)
  serve healthz r w = healthy deps.health_check w
  serve get_landing r w = writes page (landing deps.dashboard r) w
  serve (static_file path) r w = (file path, w)
  serve (mounted m) r w = writes other (deps.routes m r) w
  serve (guarded g) r w = bearer_or_session deps.resolver r (λ uid. handle g uid r) w

-- The jobs that an answer shows something of.
abbrev pub jobs_of_response : Response → List Job
jobs_of_response r = elim r.body [ one_job j ↦ j ∷ [] | jobs js ↦ js | _ ↦ [] ]

abbrev pub jobs_of_page : Page → List Job
jobs_of_page (dashboard_page js) = js
jobs_of_page (status_page j log) = j ∷ []
jobs_of_page (job_log j log) = j ∷ []
jobs_of_page _ = []

abbrev pub jobs_shown : {A : Type 0} → Written A → List Job
jobs_shown (json r) = jobs_of_response r
jobs_shown (page p) = jobs_of_page p
jobs_shown _ = []
