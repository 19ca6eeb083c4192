-- ===== src/Adapter/Http/Pages.antt =====
-- core/adapter/http/dashboard_handler.go and status_page.go: the handlers of the pages, as far as
-- the values that the templates are given.
use agentic_delegator.Prelude.{
  ℕ, String, Bool, true, false, List, Option, none, some, if◌then◌else◌,
}
use agentic_delegator.Prelude.Int.{pos}
use agentic_delegator.Domain.Errors.{Error, is_error, not_found}
use agentic_delegator.Domain.Job.{Job}
use agentic_delegator.Domain.ApiKey.{ApiKey}
use agentic_delegator.Domain.Credentials.{AnthropicCreds}
use agentic_delegator.Exec.{Exec, State, Result, ok, err}
use agentic_delegator.Ports.Keys.{ApiKeysRepository}
use agentic_delegator.Ports.Secrets.{SecretsRepository}
use agentic_delegator.Usecase.Queries.{GetJob, ListJobs, get_job, list_jobs}
use agentic_delegator.Adapter.Reply.{Reply, failed, redirect, with_code, try_call, on_result}
use agentic_delegator.Adapter.Http.Lines.{read_log_tail}

-- What is written: an answer without a page, a template with its values, or a plain text. The log
-- of a job is a plain text; it stands beside the job that it is the log of.
pub data Page : Type 0 where
  reply : Reply → Page
  landing_page : Page
  dashboard_page : List Job → Page
  settings_page : List ApiKey → Bool → Page
  status_page : Job → String → Page
  job_log : Job → String → Page
  plain : String → Page

-- `R` is the type of requests.
pub record DashboardHandler (W R : Type 0) : Type 0 where
  pub list : ListJobs W
  pub keys : ApiKeysRepository W
  pub secrets : SecretsRepository W
  pub resolver : Option (R → Exec W String)

abbrev pub failed_page : ℕ → Error → Page
failed_page code e = reply (with_code code e)

-- hasAnthropic, where the only error that is none of the store's is ErrNotFound
abbrev pub has_anthropic : Result AnthropicCreds → Result Bool
has_anthropic (ok c) = ok true
has_anthropic (err e) = if is_error e not_found then ok false else err e

module _ {W R : Type 0} (h : DashboardHandler W R) where
  abbrev visit : Option (R → Exec W String) → R → State W Page
  visit none r w = (landing_page, w)
  visit (some resolve) r w =
      try_call (resolve r) (λ e. landing_page) (λ uid w'. (reply (redirect "/dashboard"), w')) w

  unfoldable pub landing : R → State W Page
  landing r = visit h.resolver r

  unfoldable pub dashboard : String → State W Page
  dashboard uid =
      try_call (list_jobs h.list (record { user_id = uid; limit = pos 0 })) (failed_page 500)
        (λ js w. (dashboard_page js, w))

  -- What Settings does once it has the keys.
  abbrev pub rest_of_settings : String → List ApiKey → State W Page
  rest_of_settings uid keys w =
      let (r, w') = h.secrets.get_anthropic_creds uid w in
      on_result (failed_page 500) (λ has w''. (settings_page keys has, w'')) (has_anthropic r) w'

  unfoldable pub settings : String → State W Page
  settings uid = try_call (h.keys.list_for_user uid) (failed_page 500) (rest_of_settings uid)

-- `read_file` reads a file, or fails where any step of that fails.
pub record StatusPage (W : Type 0) : Type 0 where
  pub get : GetJob W
  pub read_file : String → Exec W String

abbrev pub missing : Error → Page
missing e = reply (failed 404 "not found")

module _ {W : Type 0} (p : StatusPage W) where
  abbrev pub log_tail : Job → (String → Page) → State W Page
  log_tail j shown w = let (b, w') = p.read_file j.log_path w in (shown (read_log_tail b 200), w')

  unfoldable pub render : String → String → State W Page
  render uid id =
      try_call (get_job p.get (record { job_id = id; user_id = uid })) missing
        (λ j. log_tail j (status_page j))

  unfoldable pub log_tail_page : String → String → State W Page
  log_tail_page uid id =
      try_call (get_job p.get (record { job_id = id; user_id = uid })) missing
        (λ j. log_tail j (job_log j))
