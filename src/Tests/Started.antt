-- ===== src/Tests/Started.antt =====
-- The start of the server at a concrete configuration, and requests that it serves then.
use agentic_delegator.Adapter.Postgres.Sessions as PgSessions
use agentic_delegator.Adapter.Postgres.Secrets as PgSecrets
use agentic_delegator.Prelude.{
  ℕ, String, ◌≡◌, refl, sym, ap, ◌∙◌, Bool-cases, inl, inr, List, [], ◌∷◌, Option, none, some,
  Option-cases, subst, arith, string_eq,
}
use agentic_delegator.Exec.{Exec, Result-cases}
use agentic_delegator.Ports.Quiet.{Quiet}
use agentic_delegator.Ports.Runner.{RunnerStartSpec}
use agentic_delegator.Usecase.Concurrent.{here}
use agentic_delegator.Usecase.Concurrent.Sound.{AllConsistent}
use agentic_delegator.Usecase.Concurrent.Kept.{AllKept}
use agentic_delegator.Usecase.Concurrent.Follows.{View, Follows}
use agentic_delegator.Domain.Job
use agentic_delegator.Go.Map
use agentic_delegator.Go.Strings
use agentic_delegator.Adapter.Crypto
use agentic_delegator.Adapter.Docker
use agentic_delegator.Adapter.Docker.Startup
use agentic_delegator.Cmd.Migrate
use agentic_delegator.Config
use agentic_delegator.Domain.Names
use agentic_delegator.Domain.Job.Lifecycle.{IsConsistent}
use agentic_delegator.Tests.Domain.{started}
use agentic_delegator.Prelude.Text.{◌==◌}
use agentic_delegator.Usecase.Concurrent.Sound.{some_injective}
use agentic_delegator.Adapter.Docker.Start
use agentic_delegator.Adapter.Docker.Runner
use agentic_delegator.Adapter.Docker.Supervise
use agentic_delegator.Adapter.Ghapp.RepoCreds
use agentic_delegator.Adapter.Ghapp.Install
use agentic_delegator.Adapter.Ghapp.Webhooks
use agentic_delegator.Adapter.Http.Router.{Deps, Route, mounted, guarded, post_cancel, get_status}
use agentic_delegator.Adapter.Http.Router.Follows.{PortsFollow}
use agentic_delegator.Adapter.Http.Router.Served.{serve_all}
use agentic_delegator.Adapter.Idgen
use agentic_delegator.Adapter.Keyhash
use agentic_delegator.Adapter.Oauth
use agentic_delegator.Adapter.Postgres.Installations
use agentic_delegator.Adapter.Postgres.Jobs.Laws.{row_id}
use agentic_delegator.Adapter.Postgres.Keys
use agentic_delegator.Adapter.Postgres.Models.{JobRow, to_job, from_job, to_job-from_job}
use agentic_delegator.Adapter.Postgres.Table.Memory.{rows_in, memory_table-IsTable}
use agentic_delegator.Adapter.Resolver
use agentic_delegator.Adapter.Secrets
use agentic_delegator.Adapter.Sessions
use agentic_delegator.Cmd.Routes.{
  MountedRoute, Mounted, get_login, get_oauth_callback, get_install, get_install_callback,
  post_webhook, register_routes,
}
use agentic_delegator.Cmd.Serve.{deps, run_serve, resolver, session_user}
use agentic_delegator.Cmd.Serve.Started.{StartQuiet, run_serve-keeps}
use agentic_delegator.Tests.Serve.{Rows, platform, db, reading, cfg, cipher, docker, job_rows}

-- No goroutine holds a copy.
abbrev seen : Rows → View
seen w = record { rows = job_rows w; flight = [] }

Quiet-Follows : {A : Type 0} (m : Rows → A × Rows) → Quiet job_rows m → Follows seen m
Quiet-Follows m quiet s w same =
    (s, here, record { same_rows = same.same_rows ∙ sym (quiet w); all_held = same.all_held })

start-Quiet : StartQuiet platform seen
start-Quiet = record {
  mkdir_quiet = λ path mode w. refl;
  chmod_quiet = λ path mode w. refl;
  network_quiet = λ name w. refl;
  inspect_follows = λ args s w same. (s, here, same);
  remove_quiet = λ dir w. refl;
  glob_quiet = λ pattern w. refl;
}

session-Quiet : (r : List ℕ) → Quiet job_rows (session_user platform db reading cfg cipher docker r)
unfolding Sessions.user_from_request PgSessions.resolve_user
session-Quiet r w = elim (Option-cases (Sessions.decode_cookie_value r)) [
  | inl bad ↦ rw bad refl
  | inr (id, good) ↦ rw good refl
]

resolver-Quiet : (r : List ℕ) → Quiet job_rows (resolver platform db reading cfg cipher docker r)
unfolding Resolver.resolve Resolver.or_session
resolver-Quiet r w =
    elim (Result-cases (session_user platform db reading cfg cipher docker r w).0) [
      | inl (uid, known) ↦ rw known (session-Quiet r w)
      | inr (e, unknown) ↦ rw unknown (session-Quiet r w)
    ]

mounted-Quiet :
    (m : MountedRoute) (r : List ℕ)
    → Quiet job_rows ((deps platform db reading cfg cipher docker).routes m r)
unfolding register_routes Oauth.login_page Oauth.callback Oauth.state_matches Install.callback
    Webhooks.handle Webhooks.handle_body Webhooks.verify Idgen.rand_base32 Strings.parse_int
mounted-Quiet get_login r w = refl
mounted-Quiet get_oauth_callback r w = refl
mounted-Quiet get_install r w = refl
mounted-Quiet get_install_callback r w =
    elim (Result-cases (session_user platform db reading cfg cipher docker r w).0) [
      | inl (uid, known) ↦ rw known (session-Quiet r w)
      | inr (e, unknown) ↦ rw unknown (session-Quiet r w)
    ]
mounted-Quiet post_webhook r w = refl

start-runner-Quiet :
    (spec : RunnerStartSpec) (c : Option (Runner.Callback Rows))
    → Quiet job_rows
        (Runner.start_supervised platform.host platform.spell platform.spawn docker spec c)
unfolding Runner.start_supervised Start.start Start.prepare Start.or_remove Start.write_secrets
    Start.write_secret_file Start.docker_run
start-runner-Quiet spec c w = refl

abbrev served : Deps Rows (Runner.Callback Rows) (List ℕ) MountedRoute Mounted
served = deps platform db reading cfg cipher docker

abbrev asks : Option (List ℕ → Exec Rows String) → List ℕ → Exec Rows String
asks none = served.resolver
asks (some resolve) = resolve

abbrev checks : Option (Exec Rows (Unit {0})) → Exec Rows (Unit {0})
checks none = db.ping
checks (some check) = check

served-PortsFollow : PortsFollow served seen
unfolding Idgen.rand_base32 Idgen.new_api_key_plaintext RepoCreds.creds_for
    Installations.by_user_and_repo Secrets.anthropic_provider Secrets.get_anthropic_creds
    Secrets.set_anthropic_creds PgSecrets.get_anthropic_creds PgSecrets.set_anthropic_creds
    Crypto.encrypt Supervise.stop Keyhash.create Keys.list_for_user Keys.delete
served-PortsFollow = record {
  resolve = λ r. Quiet-Follows (served.resolver r) (resolver-Quiet r);
  enqueue_clock = Quiet-Follows served.jobs_handler.enqueue.clock.now (λ w. refl);
  enqueue_id = Quiet-Follows served.jobs_handler.enqueue.id_gen.new_job_id (λ w. refl);
  repo_creds =
      λ u r. Quiet-Follows (served.jobs_handler.enqueue.repo_creds.for_repo u r) (λ w. refl);
  anthropic_creds =
      λ u. Quiet-Follows (served.jobs_handler.enqueue.anthropic_creds.for_user u) (λ w. refl);
  start_runner = λ spec c.
      Quiet-Follows (served.jobs_handler.enqueue.runner.start spec c) (start-runner-Quiet spec c);
  stop_runner = λ c. Quiet-Follows (served.jobs_handler.cancel.runner.stop c) (λ w. refl);
  cancel_clock = Quiet-Follows served.jobs_handler.cancel.clock.now (λ w. refl);
  set_secret = λ u c.
      Quiet-Follows (served.settings_handler.set_anthropic.secrets.set_anthropic_creds u c)
        (λ w. refl);
  mint_plaintext =
      Quiet-Follows served.settings_handler.mint.id_gen.new_api_key_plaintext (λ w. refl);
  mint_id = Quiet-Follows served.settings_handler.mint.id_gen.new_api_key_id (λ w. refl);
  mint_clock = Quiet-Follows served.settings_handler.mint.clock.now (λ w. refl);
  create_key = λ k. Quiet-Follows (served.settings_handler.mint.keys.create k) (λ w. refl);
  delete_key =
      λ id user. Quiet-Follows (served.settings_handler.revoke.keys.delete id user) (λ w. refl);
  list_keys = λ u. Quiet-Follows (served.dashboard.keys.list_for_user u) (λ w. refl);
  get_secret = λ u. Quiet-Follows (served.dashboard.secrets.get_anthropic_creds u) (λ w. refl);
  visit = λ resolve r there.
      subst (λ o. Follows seen (asks o r)) there
        (Quiet-Follows (served.resolver r) (resolver-Quiet r));
  read_file = λ path. Quiet-Follows (served.status_page.read_file path) (λ w. refl);
  health =
      λ check there. subst (λ o. Follows seen (checks o)) there (Quiet-Follows db.ping (λ w. refl));
  mounted_routes = λ m r. Quiet-Follows (served.routes m r) (mounted-Quiet m r);
}

-- The row of a running job.
abbrev row : JobRow
row = record {
  id = "j_1";
  user_id = "u_1";
  status = "running";
  repo = "o/r";
  base_branch = "main";
  work_branch = "feat";
  spec_source = "do it";
  source_type = "inline";
  model_override = "";
  container_id = "c";
  pr_url = "";
  error = "";
  log_path = "";
  created_at = 10;
  started_at = some 11;
  finished_at = none;
}

abbrev before : Rows
before = row ∷ []

started-IsConsistent : IsConsistent started
unfolding Job.is_terminal
started-IsConsistent = ground arith

row-started : to_job row ≡ started
unfolding from_job Names.status_text Names.source_text
row-started = let same : row ≡ from_job started = refl in ap to_job same ∙ to_job-from_job started

before-AllConsistent : AllConsistent (job_rows before)
unfolding Map.lookup
before-AllConsistent id j there = elim (Bool-cases ("j_1" == id)) [
  | inl same ↦
      let at : job_rows before id ≡ some (to_job row) = rw same refl in
      let is_row : some (to_job row) ≡ some j = sym at ∙ there in
      subst IsConsistent (sym row-started ∙ some_injective is_row) started-IsConsistent
  | inr other ↦ let gone : job_rows before id ≡ none = rw other refl in absurd (ground arith)
]

asked : List (Route MountedRoute × List ℕ)
asked =
    (guarded (post_cancel "j_1"), [])
    ∷ (mounted get_login, [])
    ∷ (guarded (get_status "j_1"), [])
    ∷ []

run_serve-keeps_example :
    AllConsistent (job_rows (serve_all served asked (run_serve platform db reading cfg before).1).1)
    × AllKept
        (job_rows before)
        (job_rows (serve_all served asked (run_serve platform db reading cfg before).1).1)
unfolding run_serve Migrate.must Config.validate_for_serve Config.missing_settings Config.check
    Crypto.new_aes_gcm Startup.check_network Runner.new_runner Docker.with_defaults
run_serve-keeps_example =
    run_serve-keeps platform db reading (rows_in row_id) (memory_table-IsTable row_id) (λ w. [])
      (record { insert_alone = λ r w. refl; update_alone = λ id f w. refl }) start-Quiet cfg before
      served asked before-AllConsistent refl refl served-PortsFollow
