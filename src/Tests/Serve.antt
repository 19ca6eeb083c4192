-- ===== src/Tests/Serve.antt =====
-- runServe at a concrete configuration, over a table of jobs in memory.
use agentic_delegator.Prelude.{
  ℕ, String, true, false, ◌≡◌, refl, ◌⊎◌, List, [], ◌∷◌, Option, none, some, All, string_eq,
}
use agentic_delegator.Prelude.Int.{pos, is_zero}
use agentic_delegator.Domain.Errors.{Error, opaque}
use agentic_delegator.Exec.{Exec, ok, err}
use agentic_delegator.Config
use agentic_delegator.Config.Checks.{incomplete}
use agentic_delegator.Adapter.Crypto.{Aead, new_aes_gcm}
use agentic_delegator.Adapter.Docker
use agentic_delegator.Adapter.Docker.Files.{exited}
use agentic_delegator.Adapter.Docker.Runner
use agentic_delegator.Adapter.Docker.Startup
use agentic_delegator.Adapter.Docker.Supervise.{collect}
use agentic_delegator.Adapter.Docker.Supervise.Report.{TellsExit}
use agentic_delegator.Go.Path.{join_path}
use agentic_delegator.Adapter.Http.Router.{Deps, Guarded, guarded, serve, unauthorized, jobs_shown}
use agentic_delegator.Adapter.Postgres.Jobs.Laws.{row_id, jobs_of}
use agentic_delegator.Adapter.Postgres.Models.{JobRow, SessionRow, from_job}
use agentic_delegator.Adapter.Postgres.Table.{Table}
use agentic_delegator.Adapter.Postgres.Table.Memory.{memory_table, rows_in, memory_table-IsTable}
use agentic_delegator.Cmd.Migrate
use agentic_delegator.Cmd.Platform.{Database, Reading, Platform}
use agentic_delegator.Cmd.Routes.{MountedRoute, Mounted}
use agentic_delegator.Cmd.Serve.{deps, run_serve, docker_config, hooks, complete, on_complete}
use agentic_delegator.Cmd.Serve.Concluded.{goroutine-concludes}
use agentic_delegator.Usecase.Completion
use agentic_delegator.Usecase.Completion.Effect.{Recorded}
use agentic_delegator.Ports.Jobs
use agentic_delegator.Ports.Quiet.{Quiet}
use agentic_delegator.Ports.Runner.{RunnerStartSpec, RunnerResult}
use agentic_delegator.Adapter.Webhook
use agentic_delegator.Adapter.Docker.Runner.{goroutine}
use agentic_delegator.Tests.Domain
use agentic_delegator.Prelude.Text.{is_empty}
use agentic_delegator.Cmd.Serve.Guards.{run_serve-guards}
use agentic_delegator.Tests.Domain.{started}
use agentic_delegator.Tests.Postgres.{one_repo}

abbrev pub Rows : Type 0
Rows = List JobRow

abbrev down : {A : Type 0} → Exec Rows A
down w = (err (opaque "down"), w)

-- A table that only looks up one row, if any.
abbrev lookup_only : {K R : Type 0} → Option R → Table Rows K R
lookup_only row = record {
  insert = λ r. down;
  upsert = λ f r. down;
  find = λ k w. (ok row, w);
  query = λ q. down;
  newest = λ at q n. down;
  update = λ k f. down;
  delete = λ k q. down;
  count = λ q. down;
}

abbrev session : SessionRow
session = record { id = []; user_id = "u_1"; expires_at = 100 }

abbrev pub db : Database Rows
db = record {
  jobs = memory_table row_id;
  api_keys = lookup_only none;
  secrets = lookup_only none;
  sessions = lookup_only (some session);
  identities = lookup_only none;
  installations = lookup_only none;
  users = lookup_only none;
  ping = λ w. (ok tt, w);
}

-- A request is its session cookie.
abbrev pub reading : Reading (List ℕ)
reading = record {
  authorization = λ r. "";
  session_cookie = λ r. some r;
  oauth_request = λ r. record { state_cookie = none; state = ""; code = ""; session = some r };
  installation_id = λ r. "";
  delivery = λ r. record { signature = ""; delivery = ""; event = ""; body = ok "" };
  enqueue_body = λ r. err (opaque "no body");
  limit = λ r. none;
  text_body = λ r. err (opaque "no body");
}

abbrev pub cipher : Aead
cipher = record { nonce_size = 0; seal = λ n t. t; unseal = λ n t. ok t }

abbrev pub platform : Platform Rows (Unit {0})
platform = record {
  time = λ w. 50;
  random = λ n w. (ok [], w);
  random_bytes = λ n w. ([], w);
  random_nonce = λ n w. (ok "", w);
  new_gcm = λ key. ok cipher;
  bcrypt = record { generate = λ t. down; matches = λ digest t. false };
  hmac = λ key body. body;
  decode_hex = λ t. none;
  unmarshal_payload = λ body. record { action = ""; installation_id = pos 0 };
  marshal_completion = λ c. ok c.event;
  json = one_repo;
  host = record {
    mkdir_all = λ path mode w. (ok tt, w);
    chmod = λ path mode w. (ok tt, w);
    remove_all = λ path w. (ok tt, w);
    write_file = λ path text mode w. (ok tt, w);
    read_file = λ path w. (ok "line\n", w);
    open_log = λ path w. (ok tt, w);
    docker = λ args w. (ok "true", w);
    docker_logs = λ id path w. (ok tt, w);
    docker_wait = λ limit id w. (exited, w);
  };
  spawn = λ m w. (tt, w);
  spell = λ n. "";
  temp_dir = "/tmp";
  sweeper = record { glob = λ pattern w. ([], w); remove_all = λ dir w. (ok tt, w) };
  inspect_network = λ name w. (ok tt, w);
  post = λ url body. down;
  pause = λ n w. (ok tt, w);
  send = λ out. down;
  get = λ url token. down;
  decode_token = λ body. err (opaque "bad");
  decode_user = λ body. err (opaque "bad");
  decode_repositories = λ body. err (opaque "bad");
  transport = λ app id key. ok tt;
  token = λ t. down;
  seen = λ w id. none;
  with_seen = λ s w. w;
}

abbrev pub cfg : Config.Config
cfg = record {
  http_bind = ":8080";
  dsn = "postgres://";
  master_key = "0123456789abcdef0123456789abcdef";
  runner_image = "runner:latest";
  runner_network = "runners";
  runner_dns = "1.1.1.1" ∷ [];
  work_dir_host = "/w";
  log_dir = "/logs";
  max_concurrent_per_user = pos 2;
  max_concurrent_global = pos 8;
  max_job_duration = pos 1800000000000;
  cookie_secure = true;
  db_max_open_conns = pos 20;
  db_max_idle_conns = pos 5;
  gh_app_id = pos 1;
  gh_app_private_key = "key";
  gh_app_slug = "app";
  gh_client_id = "c";
  gh_client_secret = "s";
  gh_oauth_redirect_url = "https://x/auth/github/callback";
  gh_webhook_secret = "w";
}

abbrev pub stored : Rows
unfolding from_job
stored = from_job started ∷ []

abbrev pub docker : Docker.Config
docker = record (docker_config platform db reading cfg) { pids_limit = pos 512 }

served : Deps Rows (Runner.Callback Rows) (List ℕ) MountedRoute Mounted
served = deps platform db reading cfg cipher docker

run_serve-guards_example :
    (incomplete cfg ≡ false)
    × ((aes : Aead) × (new_aes_gcm platform.new_gcm cfg.master_key ≡ ok aes))
    × ((g : Guarded) (r : List ℕ) (v : Rows)
        → ((uid : String) × ((served.resolver r v).0 ≡ ok uid)
            × All (λ j. j.user_id ≡ uid) (jobs_shown (serve served (guarded g) r v).0))
          ⊎ ((e : Error) × ((served.resolver r v).0 ≡ err e)
              × (serve served (guarded g) r v ≡ (unauthorized, (served.resolver r v).1))))
unfolding run_serve served Migrate.must Config.validate_for_serve new_aes_gcm Startup.check_network
    Runner.new_runner Docker.with_defaults Config.missing_settings Config.check
run_serve-guards_example =
    run_serve-guards platform db reading (rows_in row_id) (memory_table-IsTable row_id) cfg stored
      served refl

abbrev spec : RunnerStartSpec
spec = record {
  job_id = "j_1";
  repo = "o/r";
  base_branch = "main";
  work_branch = "feat";
  spec = Domain.spec;
  git_creds = record { token = "t"; expires_at = 0 };
  anthropic = record { api_key = "k" };
  model = "";
  log_path = "/logs/j_1.log";
}

abbrev pub job_rows : Rows → Jobs.Table
job_rows = jobs_of (memory_table row_id) (rows_in row_id) (memory_table-IsTable row_id)

hooks-Quiet :
    (url body : String)
    → Quiet job_rows ((hooks platform db reading cfg cipher docker).dispatch url body)
unfolding Webhook.dispatch Webhook.retry Webhook.attempt_once
hooks-Quiet url body w = refl

goroutine-concludes_example :
    let run =
      goroutine platform.host platform.spell platform.spawn docker spec
        (some (on_complete platform db reading cfg cipher docker))
        "c"
        stored in
    let uc = complete platform db reading cfg cipher docker in
    (res : RunnerResult) × (v : Rows) × (collect platform.host platform.spell docker "c"
        (join_path docker.work_dir_host "j_1")
        (join_path docker.work_dir_host "j_1.secrets")
        "/logs/j_1.log"
        "j_1"
        stored
      ≡ (ok res, v))
    × (res.job_id ≡ "j_1")
    × TellsExit platform.host platform.spell docker "c" "/logs/j_1.log" stored res
    × (is_empty res.error ≡ is_zero res.exit_code)
    × (run ≡ (ok tt, (Completion.execute platform.marshal_completion uc res v).1))
    × (Recorded platform.marshal_completion uc job_rows res v
        ⊎ ((e : Error) × ((Completion.execute platform.marshal_completion uc res v).0 ≡ err e)
            × (job_rows run.1 ≡ job_rows v)))
goroutine-concludes_example =
    goroutine-concludes platform db reading cfg cipher docker (rows_in row_id)
      (memory_table-IsTable row_id) hooks-Quiet spec "c" stored
