-- ===== src/Cmd/Serve/Guards.antt =====
-- What the server that runServe sets up is guarded by.
use agentic_delegator.Prelude.{
  String, false, ◌≡◌, ◌⊎◌, inl, inr, Option, All, arith, subst, string_eq,
}
use agentic_delegator.Domain.Errors.{Error}
use agentic_delegator.Exec.{Exec, ok, err, lift, Result-cases}
use agentic_delegator.Config
use agentic_delegator.Config.{validate_for_serve}
use agentic_delegator.Config.Checks.{incomplete, validate_for_serve_iff}
use agentic_delegator.Adapter.Crypto.{Aead, new_aes_gcm}
use agentic_delegator.Adapter.Docker
use agentic_delegator.Adapter.Docker.Runner.{Callback, new_runner}
use agentic_delegator.Adapter.Docker.Startup.{check_network}
use agentic_delegator.Adapter.Http.Router.{Deps, Guarded, guarded, serve, unauthorized, jobs_shown}
use agentic_delegator.Adapter.Http.Router.Isolation.{JobsBehind, serve-guards}
use agentic_delegator.Adapter.Postgres.Jobs.Laws.{row_id, jobs_of, jobs_repo-JobsContract}
use agentic_delegator.Adapter.Postgres.Models.{JobRow}
use agentic_delegator.Adapter.Postgres.Table.{IsTable}
use agentic_delegator.Cmd.Migrate.{must}
use agentic_delegator.Cmd.Platform.{Database, Reading, Platform}
use agentic_delegator.Cmd.Routes.{MountedRoute, Mounted}
use agentic_delegator.Cmd.Serve.{deps, run_serve, docker_config}

ok_injective : {A : Type 0} {a b : A} → ok a ≡ ok b → a ≡ b
ok_injective h = ground arith

must-ok :
    {W A : Type 0} (what : String) (m : Exec W A) (w : W) (a : A)
    → (must what m w).0 ≡ ok a
    → (m w).0 ≡ ok a
unfolding must
must-ok what m w a done = elim (Result-cases (m w).0) [
  | inl (b, fine) ↦ ground arith
  | inr (e, broken) ↦ absurd (ground arith)
]

module _ {W T R : Type 0} (p : Platform W T) (db : Database W) (reading : Reading R) where
  -- What serves was wired from a complete configuration.
  pub run_serve-ok :
      (cfg : Config.Config) (w : W) (d : Deps W (Callback W) R MountedRoute Mounted)
      → (run_serve p db reading cfg w).0 ≡ ok d
      → (aes : Aead) × (docker : Docker.Config) × (incomplete cfg ≡ false)
        × (new_aes_gcm p.new_gcm cfg.master_key ≡ ok aes)
        × (deps p db reading cfg aes docker ≡ d)
  unfolding run_serve
  run_serve-ok cfg w d done =
      let m1 : Exec W (Unit {0}) = must "config" (lift (validate_for_serve cfg)) in
      let m2 : Exec W Aead = must "aes" (lift (new_aes_gcm p.new_gcm cfg.master_key)) in
      let w1 : W = (m1 w).1 in
      let w2 : W = (m2 w1).1 in
      let m3 : Exec W (Unit {0}) = must "log dir" (p.host.mkdir_all cfg.log_dir 0o700) in
      let w3 : W = (m3 w2).1 in
      let m4 : Exec W (Unit {0}) =
        must "runner network preflight" (check_network cfg.runner_network p.inspect_network) in
      let w4 : W = (m4 w3).1 in
      let m5 : Exec W Docker.Config =
        new_runner p.host p.temp_dir (docker_config p db reading cfg) in
      elim (Result-cases (m1 w).0) [
        | inr (e, broken) ↦ absurd (ground arith)
        | inl (x, complete) ↦ elim (Result-cases (m2 w1).0) [
          | inr (e, broken) ↦ absurd (ground arith)
          | inl (aes, keyed) ↦ elim (Result-cases (m3 w2).0) [
            | inr (e, broken) ↦ absurd (ground arith)
            | inl (y, logs) ↦ elim (Result-cases (m4 w3).0) [
              | inr (e, broken) ↦ absurd (ground arith)
              | inl (z, network) ↦ elim (Result-cases (m5 w4).0) [
                | inr (e, broken) ↦ absurd (ground arith)
                | inl (docker, made) ↦ (
                  aes,
                  docker,
                  (validate_for_serve_iff cfg).0
                      (must-ok "config" (lift (validate_for_serve cfg)) w tt complete),
                  must-ok "aes" (lift (new_aes_gcm p.new_gcm cfg.master_key)) w1 aes keyed,
                  ground arith,
                )
              ]
            ]
          ]
        ]
      ]

module _ {W T R : Type 0} (p : Platform W T) (db : Database W) (reading : Reading R)
    (rows : W → String → Option JobRow) (table : IsTable db.jobs row_id rows) where
  -- Over a jobs table that keeps what SQL promises: where runServe comes to the point of serving,
  -- none of the required settings is missing and the master key was taken, and the router that it
  -- serves is guarded: behind the guard a request of no user is answered with 401 after nothing but
  -- the look at it, and every job that a route shows to a user is that user's own.
  pub run_serve-guards :
      (cfg : Config.Config) (w : W) (d : Deps W (Callback W) R MountedRoute Mounted)
      → (run_serve p db reading cfg w).0 ≡ ok d
      → (incomplete cfg ≡ false)
        × ((aes : Aead) × (new_aes_gcm p.new_gcm cfg.master_key ≡ ok aes))
        × ((g : Guarded) (r : R) (v : W)
            → ((uid : String) × ((d.resolver r v).0 ≡ ok uid)
                × All (λ j. j.user_id ≡ uid) (jobs_shown (serve d (guarded g) r v).0))
              ⊎ ((e : Error) × ((d.resolver r v).0 ≡ err e)
                  × (serve d (guarded g) r v ≡ (unauthorized, (d.resolver r v).1))))
  run_serve-guards cfg w d done =
      let (aes, docker, complete, keyed, wired) = run_serve-ok p db reading cfg w d done in
      let contract = jobs_repo-JobsContract db.jobs rows table in
      let behind : JobsBehind (deps p db reading cfg aes docker) (jobs_of db.jobs rows table) =
        record {
          api_get = contract;
          api_list = contract;
          page_get = contract;
          page_list = contract;
        } in
      (
        complete,
        (aes, keyed),
        serve-guards d (jobs_of db.jobs rows table)
            (subst (λ x. JobsBehind x (jobs_of db.jobs rows table)) wired behind),
      )
