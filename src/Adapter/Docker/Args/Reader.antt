-- ===== src/Adapter/Docker/Args/Reader.antt =====
-- The arguments of a job, as `docker run` reads them.
use text.Mathlib.Text.{starts_with}
use agentic_delegator.Prelude.{
  String, Bool, true, false, ◌≡◌, refl, ap, ◌∙◌, eq_iff, append-nil, ◌||◌, inl, inr, List, [], ◌∷◌,
  ◌++◌, Option, none, some, if◌then◌else◌, Bool-cases, arith,
}
use agentic_delegator.Prelude.Int.{is_positive}
use agentic_delegator.Prelude.Text.{◌<>◌, ◌==◌, is_empty}
use agentic_delegator.Domain.Credentials.{GitCreds, AnthropicCreds}
use agentic_delegator.Ports.Runner.{RunnerStartSpec}
use agentic_delegator.Adapter.Docker.{Config}
use agentic_delegator.Domain.Names.{source_text}
use agentic_delegator.Adapter.Docker.Args.{
  secrets_mount_path, show_int, dns_args, limit_args, network_args, build_run_args,
}

-- What a command line asks of `docker run`: options in order, then the image and its command.
pub record Run : Type 0 where
  pub options : List (String × String)
  pub image : String
  pub command : List String

abbrev with_option : String → String → Option Run → Option Run
with_option f v none = none
with_option f v (some r) = some (record r { options = (f, v) ∷ r.options })

-- The options of `docker run` that stand alone, and those that take the next argument whatever
-- it is.
stands_alone : String → Bool
stands_alone t = (t == "-d") || (t == "--cap-drop=ALL")

takes_value : String → Bool
takes_value t =
    (t == "-e")
    || ((t == "-v")
        || ((t == "--security-opt")
            || ((t == "--pids-limit")
                || ((t == "--cpus")
                    || ((t == "--memory") || ((t == "--network") || (t == "--dns")))))))

-- Options come first, and the first argument that is not one is the image.
read_options : List String → Option Run
unfolding stands_alone takes_value
read_options [] = none
read_options (t ∷ []) =
    if starts_with t "-" then none else some (record { options = []; image = t; command = [] })
read_options (t ∷ v ∷ rest) =
    let alone = read_options (v ∷ rest) in
    let valued = read_options rest in
    if stands_alone t
    then with_option t "" alone
    else if takes_value t
    then with_option t v valued
    else if starts_with t "-"
    then none
    else some (record { options = []; image = t; command = v ∷ rest })

unfoldable pub read_run : List String → Option Run
unfolding read_options
read_run [] = none
read_run (t ∷ rest) = if t == "run" then read_options rest else none

-- What a job is to be run with.
abbrev dns_options : List String → List (String × String)
dns_options [] = []
dns_options (d ∷ ds) = ("--dns", d) ∷ dns_options ds

abbrev pub intended_limits : Config → List (String × String)
intended_limits cfg =
    (if is_empty cfg.cpus then [] else ("--cpus", cfg.cpus) ∷ [])
    ++ (if is_positive cfg.memory_mb then ("--memory", show_int cfg.memory_mb <> "m") ∷ [] else [])

abbrev pub intended_network : Config → List (String × String)
intended_network cfg =
    if is_empty cfg.network then [] else ("--network", cfg.network) ∷ dns_options cfg.dns

abbrev fixed_options : Config → RunnerStartSpec → String → String → List (String × String)
fixed_options cfg spec job_dir secrets_dir =
    ("-d", "")
    ∷ ("--cap-drop=ALL", "")
    ∷ ("--security-opt", "no-new-privileges")
    ∷ ("--pids-limit", show_int cfg.pids_limit)
    ∷ ("-e", "JOB_ID=" <> spec.job_id)
    ∷ ("-e", "REPO=" <> spec.repo)
    ∷ ("-e", "BASE_BRANCH=" <> spec.base_branch)
    ∷ ("-e", "WORK_BRANCH=" <> spec.work_branch)
    ∷ ("-e", "MODEL_OVERRIDE=" <> spec.model)
    ∷ ("-e", "SPEC_TYPE=" <> source_text spec.spec.source_type)
    ∷ ("-e", "SPEC_VALUE=" <> spec.spec.value)
    ∷ ("-v", job_dir <> ":/workspace")
    ∷ ("-v", secrets_dir <> ":" <> secrets_mount_path <> ":ro")
    ∷ []

abbrev pub intended : Config → RunnerStartSpec → String → String → List (String × String)
intended cfg spec job_dir secrets_dir =
    fixed_options cfg spec job_dir secrets_dir ++ (intended_limits cfg ++ intended_network cfg)

abbrev with_options : List (String × String) → Option Run → Option Run
with_options [] r = r
with_options ((f, v) ∷ fs) r = with_option f v (with_options fs r)

read_options-dns :
    (ds rest : List String)
    → read_options (dns_args ds ++ rest) ≡ with_options (dns_options ds) (read_options rest)
unfolding read_options dns_args stands_alone takes_value
read_options-dns [] rest = refl
read_options-dns (d ∷ ds) rest = ap (with_option "--dns" d) (read_options-dns ds rest)

read_options-network :
    (cfg : Config) (rest : List String)
    → read_options (network_args cfg ++ rest)
      ≡ with_options (intended_network cfg) (read_options rest)
unfolding read_options network_args stands_alone takes_value
read_options-network cfg rest = elim (Bool-cases (is_empty cfg.network)) [
  | inl blank ↦ rw blank refl
  | inr named ↦ rw named (ap (with_option "--network" cfg.network) (read_options-dns cfg.dns rest))
]

read_options-limits :
    (cfg : Config) (rest : List String)
    → read_options (limit_args cfg ++ rest) ≡ with_options (intended_limits cfg) (read_options rest)
unfolding read_options limit_args stands_alone takes_value
read_options-limits cfg rest = elim (Bool-cases (is_empty cfg.cpus)) [
  | inl blank ↦ elim (Bool-cases (is_positive cfg.memory_mb)) [
    | inl set ↦ rw (blank, set) refl
    | inr unset ↦ rw (blank, unset) refl
  ]
  | inr named ↦ elim (Bool-cases (is_positive cfg.memory_mb)) [
    | inl set ↦ rw (named, set) refl
    | inr unset ↦ rw (named, unset) refl
  ]
]

plain_ne : (t f : String) → starts_with t "-" ≡ false → starts_with f "-" ≡ true → (t == f) ≡ false
plain_ne t f plain dashed = elim (Bool-cases (t == f)) [
  | inl same ↦ absurd (ground (arith, ap (λ x. starts_with x "-") ((eq_iff t f).0 same)))
  | inr differs ↦ differs
]

plain_alone : (t : String) → starts_with t "-" ≡ false → stands_alone t ≡ false
unfolding stands_alone
plain_alone t plain = rw (plain_ne t "-d" plain refl, plain_ne t "--cap-drop=ALL" plain refl) refl

plain_valued : (t : String) → starts_with t "-" ≡ false → takes_value t ≡ false
unfolding takes_value
plain_valued t plain =
    rw
      (
        plain_ne t "-e" plain refl,
        plain_ne t "-v" plain refl,
        plain_ne t "--security-opt" plain refl,
        plain_ne t "--pids-limit" plain refl,
        plain_ne t "--cpus" plain refl,
        plain_ne t "--memory" plain refl,
        plain_ne t "--network" plain refl,
        plain_ne t "--dns" plain refl,
      )
      refl

read_options-image :
    (t : String) (command : List String)
    → starts_with t "-" ≡ false
    → read_options (t ∷ command) ≡ some (record { options = []; image = t; command = command })
unfolding read_options
read_options-image t [] plain = rw plain refl
read_options-image t (v ∷ rest) plain = rw (plain_alone t plain, plain_valued t plain, plain) refl

with_options-append :
    (fs gs : List (String × String)) (image : String) (command : List String)
    → with_options fs (some (record { options = gs; image = image; command = command }))
      ≡ some (record { options = fs ++ gs; image = image; command = command })
with_options-append [] gs image command = refl
with_options-append ((f, v) ∷ fs) gs image command =
    ap (with_option f v) (with_options-append fs gs image command)

with_options-append_nil :
    (fs gs : List (String × String)) (image : String) (command : List String)
    → with_options fs
        (with_options gs (some (record { options = []; image = image; command = command })))
      ≡ some (record { options = fs ++ gs; image = image; command = command })
with_options-append_nil fs gs image command =
    ap (with_options fs) (with_options-append gs [] image command)
    ∙ rw (append-nil gs) (with_options-append fs gs image command)

read_options-configured :
    (cfg : Config)
    → starts_with cfg.image "-" ≡ false
    → read_options (limit_args cfg ++ (network_args cfg ++ (cfg.image ∷ cfg.entry_override)))
      ≡ some (record {
        options = intended_limits cfg ++ intended_network cfg;
        image = cfg.image;
        command = cfg.entry_override;
      })
read_options-configured cfg plain =
    read_options-limits cfg (network_args cfg ++ (cfg.image ∷ cfg.entry_override))
    ∙ ap (with_options (intended_limits cfg)) (
        read_options-network cfg (cfg.image ∷ cfg.entry_override)
        ∙ ap (with_options (intended_network cfg))
            (read_options-image cfg.image cfg.entry_override plain))
    ∙ with_options-append_nil (intended_limits cfg) (intended_network cfg) cfg.image
        cfg.entry_override

-- Where the configured image does not start with a dash, `docker run` reads from the arguments of
-- a job exactly the intended options, image and command, whatever texts the job carries; none of
-- them depends on the job's credentials.
pub read_run-build_run_args :
    (cfg : Config) (spec : RunnerStartSpec) (job_dir secrets_dir : String)
    → starts_with cfg.image "-" ≡ false
    → (read_run (build_run_args cfg spec job_dir secrets_dir)
        ≡ some (record {
          options = intended cfg spec job_dir secrets_dir;
          image = cfg.image;
          command = cfg.entry_override;
        }))
      × ((g : GitCreds) (a : AnthropicCreds)
          → build_run_args cfg (record spec { git_creds = g; anthropic = a }) job_dir secrets_dir
            ≡ build_run_args cfg spec job_dir secrets_dir)
unfolding read_run build_run_args read_options stands_alone takes_value
read_run-build_run_args cfg spec job_dir secrets_dir plain = (
  ap (with_options (fixed_options cfg spec job_dir secrets_dir))
      (read_options-configured cfg plain),
  λ g a. refl,
)
