-- ===== src/Adapter/Docker/Start.antt =====
-- Runner.Start of core/adapter/docker/runner.go, with core/adapter/docker/secrets.go. The
-- supervising goroutine that it starts last is `supervise` of Supervise.antt.
use text.Mathlib.Text.{starts_with}
use agentic_delegator.Prelude.{
  String, Bool, true, false, ◌≡◌, ap, ◌∙◌, inl, inr, ◌||◌, List, [], ◌∷◌, Option, none, arith,
  Bool-cases,
}
use agentic_delegator.Prelude.Text.{◌<>◌, ◌==◌}
use agentic_delegator.Domain.Errors.{Error, wrap, error_text}
use agentic_delegator.Exec.{◌>>◌, Exec, Result, ok, err, pure, raise, attempt, ignore, ◌>>=◌}
use agentic_delegator.Go.Path.{join_path}
use agentic_delegator.Go.Strings.{trim_space}
use agentic_delegator.Ports.Runner.{RunnerStartSpec}
use agentic_delegator.Adapter.Docker.{Config}
use agentic_delegator.Adapter.Docker.Args.{build_run_args}
use agentic_delegator.Adapter.Docker.Files.{Host}

module _ {W : Type 0} (host : Host W) where
  unfoldable pub write_secret_file : String → String → Exec W (Unit {0})
  write_secret_file path val = do host.write_file path val 0o644; host.chmod path 0o644

  unfoldable pub write_secrets : String → String → String → String → Exec W String
  write_secrets work_dir_host job_id gh_token anthropic_key =
      let secrets_dir = join_path work_dir_host (job_id <> ".secrets") in
      do
        host.mkdir_all secrets_dir 0o711
        host.chmod secrets_dir 0o711
        write_secret_file (join_path secrets_dir "gh-token") gh_token
        write_secret_file (join_path secrets_dir "anthropic-key") anthropic_key
        pure secrets_dir

  unfoldable pub remove_each : List String → Exec W (Unit {0})
  remove_each [] = pure tt
  remove_each (d ∷ ds) = do ignore (host.remove_all d); remove_each ds

  -- if err != nil { remove the directories; return "", err }
  unfoldable pub or_remove : {A : Type 0} → List String → Exec W A → Exec W A
  or_remove {A} ds m = do r ← attempt m; after r
    where
      after : Result A → Exec W A
      after (ok a) = pure a
      after (err e) = do remove_each ds; raise e

  -- Beside an error writeSecrets returns the empty text for its directory.
  unfoldable pub prepare : Config → RunnerStartSpec → String → Exec W String
  prepare cfg spec job_dir = do
    or_remove (job_dir ∷ []) (host.mkdir_all job_dir 0o777)
    or_remove (job_dir ∷ []) (host.chmod job_dir 0o777)
    or_remove (job_dir ∷ "" ∷ [])
        (write_secrets cfg.work_dir_host spec.job_id spec.git_creds.token spec.anthropic.api_key)

  docker_error : Result String → Result String
  docker_error (ok out) = ok out
  docker_error (err e) = err (wrap e ("docker run: " <> error_text e))

  unfoldable pub docker_run : List String → Exec W String
  unfolding docker_error
  docker_run args w = let (r, w') = host.docker args w in (docker_error r, w')

  unfoldable pub start : Config → RunnerStartSpec → Exec W String
  start cfg spec =
      let job_dir = join_path cfg.work_dir_host spec.job_id in
      do
        secrets_dir ← prepare cfg spec job_dir
        out ←
            or_remove (job_dir ∷ secrets_dir ∷ [])
              (docker_run (build_run_args cfg spec job_dir secrets_dir))
        pure (trim_space out)

-- A path that is a directory, or lies in it.
abbrev pub below : String → String → Bool
below q dir = (q == dir) || starts_with q (dir <> "/")

-- What os.RemoveAll does to the files of a machine: nothing for the empty path.
pub record RemovesOnly {W : Type 0} (host : Host W) (files : W → String → Option String)
    : Type 0 where
  pub removed :
      (p q : String) (w : W)
      → (host.remove_all p w).0 ≡ ok tt
      → (p == "") ≡ false
      → below q p ≡ true
      → files (host.remove_all p w).1 q ≡ none
  pub kept :
      (p q : String) (w : W) → below q p ≡ false → files (host.remove_all p w).1 q ≡ files w q
  pub no_path : (w : W) → host.remove_all "" w ≡ (ok tt, w)

module _ {W : Type 0} (host : Host W) (files : W → String → Option String)
    (law : RemovesOnly host files) (cfg : Config) (spec : RunnerStartSpec) where
  open law use {removed, kept, no_path}

  abbrev job_dir : String
  job_dir = join_path cfg.work_dir_host spec.job_id

  -- Given what os.RemoveAll does, and that neither directory is the empty path: where `docker run`
  -- fails after the directories were prepared, and where the two removals that follow succeed, whose
  -- errors Start throws away, Start returns the error of `docker run`, and no file is left in the
  -- job's directory or in its secrets directory.
  pub start-docker_failed :
      (w : W) (secrets_dir : String) (e : Error)
      → (prepare host cfg spec job_dir w).0 ≡ ok secrets_dir
      → (host.docker
          (build_run_args cfg spec job_dir secrets_dir)
          (prepare host cfg spec job_dir w).1).0
        ≡ err e
      → let after_run =
          (host.docker
            (build_run_args cfg spec job_dir secrets_dir)
            (prepare host cfg spec job_dir w).1).1 in
        (host.remove_all job_dir after_run).0 ≡ ok tt
        → (host.remove_all secrets_dir (host.remove_all job_dir after_run).1).0 ≡ ok tt
        → (job_dir == "") ≡ false
        → (secrets_dir == "") ≡ false
        → (q : String) → (below q job_dir || below q secrets_dir) ≡ true
        → ((start host cfg spec w).0 ≡ err (wrap e ("docker run: " <> error_text e)))
          × (files (start host cfg spec w).1 q ≡ none)
  unfolding start or_remove remove_each docker_run
  start-docker_failed w secrets_dir e prepared failed job_gone secret_gone job_path secret_path q
        inside =
      let w1 : W = (prepare host cfg spec job_dir w).1 in
      let w2 : W = (host.docker (build_run_args cfg spec job_dir secrets_dir) w1).1 in
      let w3 : W = (host.remove_all job_dir w2).1 in
      let w4 : W = (host.remove_all secrets_dir w3).1 in
      let ends : (start host cfg spec w).1 ≡ w4 = ground arith in
      (
        ground arith,
        ap (λ v. files v q) ends ∙ elim (Bool-cases (below q secrets_dir)) [
          | inl secret ↦ removed secrets_dir q w3 secret_gone secret_path secret
          | inr other ↦
              kept secrets_dir q w3 other ∙ removed job_dir q w2 job_gone job_path (ground arith)
        ],
      )

  -- Given what os.RemoveAll does: where writing the secrets fails, Start returns that error, and
  -- every file outside the job's own directory that stood when the writing failed is still there,
  -- those of the secrets directory included.
  pub start-write_failed :
      (w : W) (e : Error)
      → (host.mkdir_all job_dir 0o777 w).0 ≡ ok tt
      → let w1 = (host.mkdir_all job_dir 0o777 w).1 in
        (host.chmod job_dir 0o777 w1).0 ≡ ok tt
        → let w2 = (host.chmod job_dir 0o777 w1).1 in
          let written =
            write_secrets host cfg.work_dir_host spec.job_id spec.git_creds.token
              spec.anthropic.api_key w2 in
          written.0 ≡ err e
          → (q : String) → below q job_dir ≡ false
          → ((start host cfg spec w).0 ≡ err e)
            × (files (start host cfg spec w).1 q ≡ files written.1 q)
  unfolding start prepare or_remove remove_each
  start-write_failed w e made opened failed q outside =
      let w1 : W = (host.mkdir_all job_dir 0o777 w).1 in
      let w2 : W = (host.chmod job_dir 0o777 w1).1 in
      let w3 : W =
        (write_secrets host cfg.work_dir_host spec.job_id spec.git_creds.token
          spec.anthropic.api_key w2).1 in
      let w4 : W = (host.remove_all job_dir w3).1 in
      let ends : (start host cfg spec w).1 ≡ w4 = ground (arith, no_path w4) in
      (ground arith, ap (λ v. files v q) ends ∙ kept job_dir q w3 outside)
