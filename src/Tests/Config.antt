-- ===== src/Tests/Config.antt =====
-- A small environment, and the configuration that is read from it.
use Prim.Native.String.{len}
use agentic_delegator.Prelude.{
  String, false, ◌≡◌, refl, ◌↔◌, All, none, some, if◌then◌else◌, [], ◌∷◌,
}
use agentic_delegator.Prelude.Text.{◌==◌, is_empty}
use agentic_delegator.Exec.{ok}
use agentic_delegator.Go.Strings.{trim_space}
use agentic_delegator.Config.{
  Config, Conversions, Env, get_env, get_env_csv, split_commas, trimmed, read_env, load,
  validate_for_serve,
}
use agentic_delegator.Config.Checks.{incomplete, validate_for_serve_iff, load_sound}

abbrev key : String
key = "0123456789abcdef0123456789abcdef"

-- The master key is spelled by itself.
abbrev conversions : Conversions
conversions = record {
  parse_int = λ s. none;
  parse_bool = λ s. none;
  decode_hex = λ s. some s;
  bytes_before_error = λ s. 0;
  times = λ a b. a;
}

abbrev env : Env
env name =
    if name == "AGENTIC_MASTER_KEY"
    then key
    else if name == "AGENTIC_RUNNER_DNS"
    then " 8.8.8.8,, 9.9.9.9 "
    else ""

abbrev loaded : Config
loaded = record (read_env conversions env) {
  master_key = key;
  log_dir = "/tmp/agentic-delegator/logs";
}

csv_drops : get_env_csv env "AGENTIC_RUNNER_DNS" "" ≡ "8.8.8.8" ∷ "9.9.9.9" ∷ []
unfolding get_env_csv split_commas trimmed trim_space
csv_drops = refl

validate_for_serve_iff_example : (validate_for_serve loaded ≡ ok tt) ↔ (incomplete loaded ≡ false)
validate_for_serve_iff_example = validate_for_serve_iff loaded

load_sound_example :
    (len loaded.master_key ≡ 32)
    × (conversions.decode_hex (env "AGENTIC_MASTER_KEY") ≡ some loaded.master_key)
    × All (λ p. is_empty p ≡ false) loaded.runner_dns
unfolding load get_env read_env
load_sound_example = load_sound conversions env loaded refl
