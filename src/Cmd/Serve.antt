-- ===== src/Cmd/Serve.antt =====
-- runServe of cmd/agentic-delegator/main.go: how the parts of the program are put together. What
-- follows, the HTTP server and its shutdown, is the library's.
pub mod Guards
pub mod Started
pub mod Concluded
use agentic_delegator.Prelude.{ℕ, String, [], some}
use agentic_delegator.Prelude.Int.{pos}
use agentic_delegator.Exec.{Exec, State, pure, lift, call, ignore, ◌>>=◌, ◌>>◌}
use agentic_delegator.Config
use agentic_delegator.Config.{validate_for_serve}
use agentic_delegator.Ports.Jobs.{JobsRepository}
use agentic_delegator.Ports.Keys.{ApiKeysRepository}
use agentic_delegator.Ports.Secrets.{SecretsRepository}
use agentic_delegator.Ports.Small.{Clock, IdGenerator, WebhookDispatcher}
use agentic_delegator.Ports.Runner.{RunnerService}
use agentic_delegator.Usecase.CancelJob.{CancelJob}
use agentic_delegator.Usecase.Completion
use agentic_delegator.Usecase.Completion.{HandleRunnerCompletion}
use agentic_delegator.Usecase.EnqueueJob.{EnqueueJob}
use agentic_delegator.Usecase.Queries.{GetJob, ListJobs}
use agentic_delegator.Usecase.Reattach.{ReattachRunningJobs}
use agentic_delegator.Adapter.Crypto.{Aead, new_aes_gcm}
use agentic_delegator.Adapter.Docker
use agentic_delegator.Adapter.Docker.Runner.{Callback, new_runner, runner_service}
use agentic_delegator.Adapter.Docker.Startup.{check_network}
use agentic_delegator.Adapter.Ghapp.AppClient
use agentic_delegator.Adapter.Ghapp.AppClient.{AppClient}
use agentic_delegator.Adapter.Ghapp.Install.{InstallHandler}
use agentic_delegator.Adapter.Ghapp.RepoCreds.{RepoCredsProvider, repo_creds}
use agentic_delegator.Adapter.Ghapp.Webhooks
use agentic_delegator.Adapter.Ghapp.Webhooks.{WebhookHandler, Memory}
use agentic_delegator.Adapter.Http.Router.{Deps}
use agentic_delegator.Adapter.Idgen.{nano_id, system_clock}
use agentic_delegator.Adapter.Keyhash.{keyhash_repo}
use agentic_delegator.Adapter.Oauth.{Oauth}
use agentic_delegator.Adapter.Postgres.Identities.{upsert_admin}
use agentic_delegator.Adapter.Postgres.Identities.Laws.{identities_repo}
use agentic_delegator.Adapter.Postgres.Installations
use agentic_delegator.Adapter.Postgres.Jobs.{jobs_repo}
use agentic_delegator.Adapter.Postgres.Keys.{keys_repo}
use agentic_delegator.Adapter.Postgres.Secrets.{secrets_repo}
use agentic_delegator.Adapter.Postgres.Sessions.{sessions_repo}
use agentic_delegator.Adapter.Resolver.{resolve}
use agentic_delegator.Adapter.Secrets.{encrypting_secrets, anthropic_provider}
use agentic_delegator.Adapter.Sessions.{Sessions, user_from_request}
use agentic_delegator.Adapter.Webhook.{dispatch}
use agentic_delegator.Cmd.Migrate.{must}
use agentic_delegator.Cmd.Routes.{RouteMounter, MountedRoute, Mounted, register_routes}
use agentic_delegator.Cmd.Startup.{recover}
use agentic_delegator.Cmd.Platform.{Database, Reading, Platform}

-- time.Now of clock.System, of the sessions and of the handlers.
abbrev reads_time : {W : Type 0} → (W → ℕ) → State W ℕ
reads_time time w = (time w, w)

module _ {W T R : Type 0} (p : Platform W T) (db : Database W) (reading : Reading R)
    (cfg : Config.Config) (aes : Aead) (docker : Docker.Config) where
  abbrev pub now : State W ℕ
  now = reads_time p.time

  abbrev pub clk : Clock W
  clk = system_clock now

  abbrev pub idg : IdGenerator W
  idg = nano_id p.random_bytes

  abbrev pub jobs : JobsRepository W
  jobs = jobs_repo db.jobs

  abbrev pub secrets : SecretsRepository W
  secrets =
      encrypting_secrets
        (record { inner = secrets_repo p.time db.secrets; aes = aes; random = p.random_nonce })

  abbrev pub api_keys : ApiKeysRepository W
  api_keys = keyhash_repo p.bcrypt (keys_repo db.api_keys)

  abbrev pub runner : RunnerService W (Callback W)
  runner = runner_service p.host p.spell p.spawn docker

  abbrev pub hooks : WebhookDispatcher W
  hooks = record {
    dispatch = dispatch (record { post = p.post; pause = p.pause; backoff = 1000000000 });
  }

  abbrev pub sessions : Sessions W
  sessions = record {
    store = sessions_repo p.time db.sessions;
    secure = cfg.cookie_secure;
    random = p.random;
    now = now;
  }

  abbrev pub app_client : AppClient W T
  app_client = record {
    creds = record { app_id = cfg.gh_app_id; private_key_pem = cfg.gh_app_private_key };
    transport = p.transport;
    token = p.token;
    now = now;
  }

  abbrev pub oauth : Oauth W
  oauth = record {
    cfg = record {
      client_id = cfg.gh_client_id;
      client_secret = cfg.gh_client_secret;
      redirect_url = cfg.gh_oauth_redirect_url;
      cookie_secure = cfg.cookie_secure;
    };
    sessions = sessions;
    identities = identities_repo db.identities;
    upsert_admin = upsert_admin db.users;
    id_gen = idg;
    clock = clk;
    send = p.send;
    decode_token = p.decode_token;
    decode_user = p.decode_user;
  }

  abbrev pub session_user : R → Exec W String
  session_user r = user_from_request sessions (reading.session_cookie r)

  abbrev pub install_handler : InstallHandler W R
  install_handler = record {
    app_slug = cfg.gh_app_slug;
    installation_id_of = reading.installation_id;
    user_from_request = session_user;
    upsert = Installations.upsert p.json db.installations;
    installation_token = AppClient.installation_token app_client;
    get = p.get;
    decode_repositories = p.decode_repositories;
    now = now;
  }

  abbrev pub webhook_handler : WebhookHandler W
  webhook_handler = record {
    decode_hex = p.decode_hex;
    mac = p.hmac cfg.gh_webhook_secret;
    unmarshal = p.unmarshal_payload;
    delete_installation = Installations.delete p.json db.installations;
  }

  -- The handler's memory is a part of the world.
  abbrev pub handle_webhook : R → State W ℕ
  handle_webhook r w =
      let memory : Memory W = record { seen = p.seen w; world = w } in
      let (code, m) = Webhooks.handle webhook_handler (reading.delivery r) (p.time w) memory in
      (code, p.with_seen m.seen m.world)

  abbrev pub creds : RepoCredsProvider W
  creds = record {
    installation_token = AppClient.installation_token app_client;
    by_user_and_repo = Installations.by_user_and_repo p.json db.installations;
  }

  abbrev pub resolver : R → Exec W String
  resolver = resolve (record {
    authorization = reading.authorization;
    sessions = session_user;
    keys = api_keys;
    now = now;
    bcrypt = p.bcrypt;
  })

  abbrev pub complete : HandleRunnerCompletion W
  complete = record { jobs = jobs; clock = clk; webhook = some (record { dispatcher = hooks }) }

  -- enqueue.OnComplete: an error is logged only.
  unfoldable pub on_complete : Callback W
  on_complete res = ignore (Completion.execute p.marshal_completion complete res)

  abbrev pub enqueue : EnqueueJob W (Callback W)
  enqueue = record {
    jobs = jobs;
    repo_creds = repo_creds creds;
    anthropic_creds = anthropic_provider secrets;
    runner = runner;
    id_gen = idg;
    clock = clk;
    log_dir = cfg.log_dir;
    max_concurrent_per_user = cfg.max_concurrent_per_user;
    max_concurrent_global = cfg.max_concurrent_global;
    on_complete = some on_complete;
  }

  abbrev pub get_job : GetJob W
  get_job = record { jobs = jobs }

  abbrev pub list_jobs : ListJobs W
  list_jobs = record { jobs = jobs }

  abbrev pub reattach : ReattachRunningJobs W (Callback W)
  reattach = record { jobs = jobs; runner = runner; clock = clk }

  abbrev pub cancel_job : CancelJob W (Callback W)
  cancel_job = record { jobs = jobs; runner = runner; clock = clk }

  abbrev pub mounter : RouteMounter W R
  mounter = record {
    oauth = oauth;
    install = install_handler;
    webhook = handle_webhook;
    oauth_request = reading.oauth_request;
  }

  -- The router's dependencies.
  abbrev pub deps : Deps W (Callback W) R MountedRoute Mounted
  deps = record {
    resolver = resolver;
    jobs_handler = record {
      enqueue = enqueue;
      get = get_job;
      list = list_jobs;
      cancel = cancel_job;
    };
    settings_handler = record {
      set_anthropic = record { secrets = secrets };
      mint = record { keys = api_keys; id_gen = idg; clock = clk };
      revoke = record { keys = api_keys };
    };
    status_page = record { get = get_job; read_file = p.host.read_file };
    dashboard = record {
      list = list_jobs;
      keys = api_keys;
      secrets = secrets;
      resolver = some resolver;
    };
    routes = register_routes mounter;
    health_check = some db.ping;
    enqueue_body = reading.enqueue_body;
    limit = reading.limit;
    text_body = reading.text_body;
  }

module _ {W T R : Type 0} (p : Platform W T) (db : Database W) (reading : Reading R) where
  abbrev pub docker_config : Config.Config → Docker.Config
  docker_config cfg = record {
    image = cfg.runner_image;
    entry_override = [];
    cpus = "2";
    memory_mb = pos 2048;
    pids_limit = pos 0;
    network = cfg.runner_network;
    dns = cfg.runner_dns;
    work_dir_host = cfg.work_dir_host;
    max_job_duration = cfg.max_job_duration;
  }

  -- Up to the HTTP server, which is given the router over these dependencies.
  unfoldable pub run_serve : Config.Config → Exec W (Deps W (Callback W) R MountedRoute Mounted)
  run_serve cfg = do
    must "config" (lift (validate_for_serve cfg))
    aes ← must "aes" (lift (new_aes_gcm p.new_gcm cfg.master_key))
    must "log dir" (p.host.mkdir_all cfg.log_dir 0o700)
    must "runner network preflight" (check_network cfg.runner_network p.inspect_network)
    docker ← new_runner p.host p.temp_dir (docker_config cfg)
    swept ← call (
        recover (jobs p db reading cfg aes docker) p.sweeper cfg.work_dir_host
          (reattach p db reading cfg aes docker))
    pure (deps p db reading cfg aes docker)
