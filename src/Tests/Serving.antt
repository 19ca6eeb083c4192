-- ===== src/Tests/Serving.antt =====
-- The start of the program, its router and the installation of the App at concrete inputs.
use agentic_delegator.Prelude.{
  ℕ, String, Bool, true, false, ◌≡◌, ◌≢◌, refl, ap, ◌∙◌, ◌⊎◌, inl, inr, List, [], ◌∷◌, none, some,
  All, eq_iff, int_eq, string_eq, Bool-cases, if◌then◌else◌,
}
use agentic_delegator.Prelude.Text.{◌==◌, is_empty}
use agentic_delegator.Domain.Errors.{Error, opaque}
use agentic_delegator.Domain.Job.{Job}
use agentic_delegator.Exec.{Exec, ok, err}
use agentic_delegator.Go.Map
use agentic_delegator.Go.Path.{base}
use agentic_delegator.Go.Strings.{trim_suffix}
use agentic_delegator.Ports.Jobs.{JobsRepository}
use agentic_delegator.Ports.Keys.{ApiKeysRepository}
use agentic_delegator.Ports.Secrets.{SecretsRepository}
use agentic_delegator.Testutil.FakeJobs
use agentic_delegator.Testutil.FakeJobs.{FakeJobsRepo}
use agentic_delegator.Testutil.FakeJobs.Laws.{fake_jobs, rows_of, fake_jobs-JobsContract}
use agentic_delegator.Testutil.World.Lens.{Lens, on_jobs, on_jobs-JobsContract}
use agentic_delegator.Testutil.World.Wired
use agentic_delegator.Testutil.World.Wired.{World}
use agentic_delegator.Usecase.Reattach
use agentic_delegator.Usecase.Reattach.{ReattachRunningJobs}
use agentic_delegator.Adapter.Docker.Startup.{Sweeper, job_of}
use agentic_delegator.Cmd.Startup.{recover, recover-spares}
use agentic_delegator.Adapter.Http.Router.{
  Deps, get_status, guarded, jobs_shown, serve, unauthorized,
}
use agentic_delegator.Adapter.Http.Router.Isolation.{JobsBehind, serve-guards}
use agentic_delegator.Adapter.Postgres.Table.Memory.{memory_table}
use agentic_delegator.Adapter.Postgres.Models.{InstallationRow}
use agentic_delegator.Adapter.Postgres.Installations
use agentic_delegator.Adapter.Postgres.Installations.Choice.{row_key}
use agentic_delegator.Adapter.Ghapp.Install.{InstallHandler}
use agentic_delegator.Tests.Domain.{started}
use agentic_delegator.Tests.Postgres.{one_repo}
use agentic_delegator.Tests.Usecase.{holding}

-- The jobs, and whether the secrets of j_1 are on the machine.
abbrev Machine : Type 0
Machine = FakeJobsRepo × Bool

abbrev in_jobs : Lens Machine FakeJobsRepo
in_jobs = record {
  view = λ w. w.0;
  put_back = λ s w. (s, w.1);
  view-put_back = λ s w. refl;
  put_back-view = λ w. refl;
}

abbrev machine_jobs : JobsRepository Machine
machine_jobs = on_jobs in_jobs fake_jobs

abbrev sweeper : Sweeper Machine
sweeper = record {
  glob = λ pattern w. ("/w/j_1.secrets" ∷ "/w/j_2.secrets" ∷ [], w);
  remove_all = λ dir w. (ok tt, (w.0, if dir == "/w/j_1.secrets" then false else w.1));
}

-- Every container is still there.
abbrev alive : ReattachRunningJobs Machine (Unit {0})
alive = record {
  jobs = machine_jobs;
  runner = record {
    start = λ s c w. (ok "c", w);
    inspect = λ c w. (ok true, w);
    stop = λ c w. (ok tt, w);
  };
  clock = record { now = λ w. (20, w) };
}

abbrev machine : Machine
machine = (started ∷ [], true)

job_of_j_1 : job_of "/w/j_1.secrets" ≡ "j_1"
unfolding job_of base trim_suffix
job_of_j_1 = refl

keeps_others :
    (dir : String) (w : Machine)
    → job_of dir ≢ started.id
    → w.1 ≡ true
    → (sweeper.remove_all dir w).1.1 ≡ true
keeps_others dir w foreign h = elim (Bool-cases (dir == "/w/j_1.secrets")) [
  | inl same ↦ absurd (foreign (ap job_of ((eq_iff dir "/w/j_1.secrets").0 same) ∙ job_of_j_1))
  | inr other ↦ rw other h
]

recover-spares_example : (recover machine_jobs sweeper "/w" alive machine).1.1 ≡ true
unfolding Reattach.execute Reattach.check_each Map.lookup FakeJobs.list_by_status Map.values
recover-spares_example =
    recover-spares machine_jobs sweeper "/w" alive (λ w. rows_of w.0)
      (on_jobs-JobsContract in_jobs fake_jobs rows_of fake_jobs-JobsContract) started
      (λ w. w.1 ≡ true) keeps_others (λ pattern w h. h) machine refl refl refl

abbrev down : {A : Type 0} → Exec World A
down w = (err (opaque "down"), w)

abbrev pub no_keys : ApiKeysRepository World
no_keys = record {
  create = λ k. down;
  get_by_prefix = λ p. down;
  list_for_user = λ u. down;
  delete = λ i u. down;
  record_used = λ i t. down;
}

abbrev pub no_secrets : SecretsRepository World
no_secrets = record {
  set_anthropic_creds = λ u c. down;
  get_anthropic_creds = λ u. down;
  delete_anthropic_creds = λ u. down;
}

-- A request is the name of its user, or empty.
abbrev pub named : String → Exec World String
named r w = if is_empty r then (err (opaque "no session"), w) else (ok r, w)

abbrev pub deps : Deps World (Unit {0}) String (Unit {0}) ℕ
deps = record {
  resolver = named;
  jobs_handler = record {
    enqueue = Wired.enqueue;
    get = Wired.get;
    list = Wired.list;
    cancel = Wired.cancel;
  };
  settings_handler = record {
    set_anthropic = record { secrets = no_secrets };
    mint = record { keys = no_keys; id_gen = Wired.ids; clock = Wired.clock };
    revoke = record { keys = no_keys };
  };
  status_page = record { get = Wired.get; read_file = λ path w. (ok "line\n", w) };
  dashboard = record {
    list = Wired.list;
    keys = no_keys;
    secrets = no_secrets;
    resolver = some named;
  };
  routes = λ m r w. (200, w);
  health_check = none;
  enqueue_body = λ r. err (opaque "no body");
  limit = λ r. none;
  text_body = λ r. err (opaque "no body");
}

pub one_table : JobsBehind deps Wired.rows
one_table = record {
  api_get = Wired.jobs-JobsContract;
  api_list = Wired.jobs-JobsContract;
  page_get = Wired.jobs-JobsContract;
  page_list = Wired.jobs-JobsContract;
}

serve-guards_example :
    ((uid : String) × ((named "u_1" (holding started)).0 ≡ ok uid)
      × All
          (λ (j : Job). j.user_id ≡ uid)
          (jobs_shown (serve deps (guarded (get_status "j_1")) "u_1" (holding started)).0))
    ⊎ ((e : Error) × ((named "u_1" (holding started)).0 ≡ err e)
        × (serve deps (guarded (get_status "j_1")) "u_1" (holding started)
            ≡ (unauthorized, (named "u_1" (holding started)).1)))
serve-guards_example =
    serve-guards deps Wired.rows one_table (get_status "j_1") "u_1" (holding started)

-- The App is installed on the repository of user u_1, and u_2 calls back.
abbrev installer : InstallHandler (List InstallationRow) String
installer = record {
  app_slug = "app";
  installation_id_of = λ r. r;
  user_from_request = λ r w. (ok "u_2", w);
  upsert = Installations.upsert one_repo (memory_table row_key);
  installation_token = λ id w. (ok ("t", 9), w);
  get = λ url token w. (ok (record { code = 200; body = "x" }), w);
  decode_repositories = λ b. ok (record { full_name = "o/r"; owner_login = "o" } ∷ []);
  now = λ w. (4, w);
}
