-- ===== src/Cmd/Serve/Started.antt =====
-- What the start of the server does to the jobs, and what it serves after that.
use agentic_delegator.Adapter.Postgres.Jobs as PgJobs
use agentic_delegator.Prelude.{
  ℕ, String, ◌≡◌, refl, sym, ap, ◌∙◌, inl, inr, List, [], eqb, Option, arith, subst, Bool-cases,
  string_eq,
}
use agentic_delegator.Exec.{Exec, Result, ok, Result-cases}
use agentic_delegator.Config
use agentic_delegator.Config.{validate_for_serve}
use agentic_delegator.Domain.Job.{Job}
use agentic_delegator.Ports.Jobs.{Table}
use agentic_delegator.Ports.Quiet.{Quiet}
use agentic_delegator.Usecase.Reattach
use agentic_delegator.Usecase.Concurrent.{Steps-trans, start, here}
use agentic_delegator.Usecase.Concurrent.Sound.{AllConsistent}
use agentic_delegator.Usecase.Concurrent.Kept.{AllKept, Steps-AllConsistent-rows, Steps-AllKept}
use agentic_delegator.Usecase.Concurrent.Follows.{
  View, Matches, Follows, SharedJobs, across, moved, start-Matches,
}
use agentic_delegator.Usecase.Concurrent.Follows.Reattach.{reattach-Follows}
use agentic_delegator.Adapter.Crypto.{Aead, new_aes_gcm}
use agentic_delegator.Adapter.Docker
use agentic_delegator.Adapter.Docker.{with_defaults}
use agentic_delegator.Adapter.Docker.Runner.{Callback, new_runner}
use agentic_delegator.Prelude.Text.{is_empty}
use agentic_delegator.Adapter.Docker.Startup.{check_network}
use agentic_delegator.Adapter.Docker.Supervise.{inspect}
use agentic_delegator.Adapter.Http.Router.{Deps, Route}
use agentic_delegator.Adapter.Http.Router.Follows.{PortsFollow}
use agentic_delegator.Adapter.Http.Router.Served.{serve_all, serve_all-Follows}
use agentic_delegator.Adapter.Postgres.Jobs.Laws.{row_id, jobs_of, jobs_repo-JobsContract}
use agentic_delegator.Adapter.Postgres.Models.{JobRow, from_job}
use agentic_delegator.Adapter.Postgres.Table.{IsTable}
use agentic_delegator.Cmd.Migrate.{must}
use agentic_delegator.Cmd.Platform.{Database, Reading, Platform}
use agentic_delegator.Cmd.Routes.{MountedRoute, Mounted}
use agentic_delegator.Cmd.Serve.{deps, run_serve, docker_config, jobs, reattach}
use agentic_delegator.Cmd.Serve.Guards.{run_serve-ok}
use agentic_delegator.Cmd.Startup.{recover}
use agentic_delegator.Cmd.Startup.Quiet.{sweep_at_start-Quiet}

-- The statements that the server writes jobs with are its own steps: what goroutines hold stays.
pub record WritesAlone {W : Type 0} (db : Database W) (flight : W → List Job) : Type 0 where
  pub insert_alone : (r : JobRow) → Quiet flight (db.jobs.insert r)
  pub update_alone : (id : String) (f : JobRow → JobRow) → Quiet flight (db.jobs.update id f)

-- What the machine does at the start leaves the jobs alone, or goes on by steps where a container
-- is looked at.
pub record StartQuiet {W T : Type 0} (p : Platform W T) (view : W → View) : Type 0 where
  pub mkdir_quiet : (path : String) (mode : ℕ) → Quiet view (p.host.mkdir_all path mode)
  pub chmod_quiet : (path : String) (mode : ℕ) → Quiet view (p.host.chmod path mode)
  pub network_quiet : (name : String) → Quiet view (p.inspect_network name)
  pub inspect_follows : (args : List String) → Follows view (p.host.docker args)
  pub remove_quiet : (dir : String) → Quiet view (p.sweeper.remove_all dir)
  pub glob_quiet : (pattern : String) → Quiet view (p.sweeper.glob pattern)

module _ {W T R : Type 0} (p : Platform W T) (db : Database W) (reading : Reading R)
    (rows : W → String → Option JobRow) (table : IsTable db.jobs row_id rows)
    (flight : W → List Job) (alone : WritesAlone db flight)
    (quiet : StartQuiet p
      (λ w. record { rows = jobs_of db.jobs rows table w; flight = flight w })) where
  abbrev stored : W → Table
  stored = jobs_of db.jobs rows table

  abbrev view : W → View
  view w = record { rows = stored w; flight = flight w }

  update-Quiet : (j : Job) → Quiet flight (PgJobs.update db.jobs j)
  unfolding PgJobs.update
  update-Quiet j w =
      let m : Exec W ℕ = db.jobs.update j.id (λ old. from_job j) in
      elim (Result-cases (m w).0) [
        | inl (n, done) ↦ elim (Bool-cases (eqb n 0)) [
          | inl none_there ↦
              ap flight (ground arith) ∙ alone.update_alone j.id (λ old. from_job j) w
          | inr there ↦ ap flight (ground arith) ∙ alone.update_alone j.id (λ old. from_job j) w
        ]
        | inr (e, broken) ↦ ap flight (ground arith) ∙ alone.update_alone j.id (λ old. from_job j) w
      ]

  jobs_repo-SharedJobs : SharedJobs (PgJobs.jobs_repo db.jobs) view
  unfolding PgJobs.create
  jobs_repo-SharedJobs = record {
    contract = jobs_repo-JobsContract db.jobs rows table;
    create_alone = λ j. alone.insert_alone (from_job j);
    update_alone = update-Quiet;
  }

  check_network-Quiet : (name : String) → Quiet view (check_network name p.inspect_network)
  unfolding check_network
  check_network-Quiet name w = elim (Bool-cases (is_empty name)) [
    | inl unset ↦ rw unset refl
    | inr set ↦ rw set (quiet.network_quiet name w)
  ]

  new_runner-Quiet : (cfg : Docker.Config) → Quiet view (new_runner p.host p.temp_dir cfg)
  unfolding new_runner
  new_runner-Quiet cfg w =
      let full = with_defaults p.temp_dir cfg in
      quiet.chmod_quiet full.work_dir_host 0o700 (p.host.mkdir_all full.work_dir_host 0o700 w).1
      ∙ quiet.mkdir_quiet full.work_dir_host 0o700 w

  recover-Follows :
      (cfg : Config.Config) (aes : Aead) (docker : Docker.Config)
      → Follows view (
          recover
            (jobs p db reading cfg aes docker)
            p.sweeper
            cfg.work_dir_host
            (reattach p db reading cfg aes docker))
  unfolding recover inspect
  recover-Follows cfg aes docker s w same =
      let contract = jobs_repo-JobsContract db.jobs rows table in
      let uc = reattach p db reading cfg aes docker in
      let (t, r, ends) =
        reattach-Follows uc view jobs_repo-SharedJobs (λ c. quiet.inspect_follows _)
          (λ s w same. (s, here, same)) s w same in
      (
        t,
        r,
        across (view (recover uc.jobs p.sweeper cfg.work_dir_host uc w).1) ends (
            sym (
              sweep_at_start-Quiet p.sweeper view quiet.remove_quiet quiet.glob_quiet uc.jobs stored
                cfg.work_dir_host contract (Reattach.execute uc w).1)),
      )

  run_serve-Follows : (cfg : Config.Config) → Follows view (run_serve p db reading cfg)
  unfolding run_serve must
  run_serve-Follows cfg s w same =
      let keyed : Result Aead = new_aes_gcm p.new_gcm cfg.master_key in
      let m3 : Exec W (Unit {0}) = p.host.mkdir_all cfg.log_dir 0o700 in
      let w3 : W = (m3 w).1 in
      let m4 : Exec W (Unit {0}) = check_network cfg.runner_network p.inspect_network in
      let w4 : W = (m4 w3).1 in
      let m5 : Exec W Docker.Config =
        new_runner p.host p.temp_dir (docker_config p db reading cfg) in
      let w5 : W = (m5 w4).1 in
      let at3 : Matches s (view w3) =
        across (view w3) same (sym (quiet.mkdir_quiet cfg.log_dir 0o700 w)) in
      let at4 : Matches s (view w4) =
        across (view w4) at3 (sym (check_network-Quiet cfg.runner_network w3)) in
      let at5 : Matches s (view w5) =
        across (view w5) at4 (sym (new_runner-Quiet (docker_config p db reading cfg) w4)) in
      elim (Result-cases (validate_for_serve cfg)) [
        | inr (e, broken) ↦ (s, here, moved view same (ground arith))
        | inl (x, full) ↦ elim (Result-cases keyed) [
          | inr (e, broken) ↦ (s, here, moved view same (ground arith))
          | inl (aes, key) ↦ elim (Result-cases (m3 w).0) [
            | inr (e, broken) ↦ (s, here, moved view at3 (ground arith))
            | inl (y, logs) ↦ elim (Result-cases (m4 w3).0) [
              | inr (e, broken) ↦ (s, here, moved view at4 (ground arith))
              | inl (z, network) ↦ elim (Result-cases (m5 w4).0) [
                | inr (e, broken) ↦ (s, here, moved view at5 (ground arith))
                | inl (docker, made) ↦
                    let (t, r, ends) = recover-Follows cfg aes docker s w5 at5 in
                    (t, r, moved view ends (ground arith))
              ]
            ]
          ]
        ]
      ]

  -- Over a jobs table that keeps what SQL promises, whose jobs are consistent and of which no
  -- goroutine holds a copy before the start, where the statements that write jobs leave the copies
  -- alone which other goroutines hold, and where the calls of the machine at the start leave the
  -- table and those copies alone, or go on by steps of goroutines while a container is looked at:
  -- where runServe comes to the point of serving, and where within the calls of the ports behind its
  -- router the table and the copies go on only by such steps, the writing of a copy that was read
  -- before the call among them, whatever requests it then serves one after another, in the end all
  -- jobs are consistent, and each job that was there before the start is still there as the same
  -- task.
  pub run_serve-keeps :
      (cfg : Config.Config) (w : W) (d : Deps W (Callback W) R MountedRoute Mounted)
      (rs : List (Route MountedRoute × R))
      → AllConsistent (stored w)
      → flight w ≡ []
      → (run_serve p db reading cfg w).0 ≡ ok d
      → PortsFollow d view
      → AllConsistent (stored (serve_all d rs (run_serve p db reading cfg w).1).1)
        × AllKept (stored w) (stored (serve_all d rs (run_serve p db reading cfg w).1).1)
  run_serve-keeps cfg w d rs consistent nobody done ports =
      let (aes, docker, complete, key, wired) = run_serve-ok p db reading cfg w d done in
      let contract = jobs_repo-JobsContract db.jobs rows table in
      let v : W = (run_serve p db reading cfg w).1 in
      let (t, r, ends) = run_serve-Follows cfg (start (stored w)) w (start-Matches nobody) in
      let serves : Follows view (serve_all d rs) =
        subst (λ x. PortsFollow x view → Follows view (serve_all x rs)) wired
          (λ its_ports.
            serve_all-Follows (deps p db reading cfg aes docker) view
              (record {
                api_get = contract;
                api_list = contract;
                page_get = contract;
                page_list = contract;
              })
              jobs_repo-SharedJobs jobs_repo-SharedJobs its_ports rs)
          ports in
      let (u, q, last) = serves t v ends in
      let keyed = contract.keyed w in
      let all = Steps-trans r q in
      (
        subst AllConsistent last.same_rows
            (Steps-AllConsistent-rows (stored w) keyed consistent all),
        subst (AllKept (stored w)) last.same_rows (Steps-AllKept (stored w) keyed consistent all),
      )
