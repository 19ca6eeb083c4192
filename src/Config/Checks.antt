-- ===== src/Config/Checks.antt =====
-- What a loaded configuration keeps, and when it is fit to serve.
use Prim.Native.String.{len}
use agentic_delegator.Prelude.{
  String, Bool, true, false, ◌≡◌, refl, ◌||◌, ◌↔◌, inl, inr, List, [], ◌∷◌, All, Bool-cases,
  Option-cases, arith, some, ap, subst, sym, eq_iff, eqb, ◌∙◌,
}
use agentic_delegator.Prelude.Int.{is_zero}
use agentic_delegator.Prelude.Text.{is_empty}
use agentic_delegator.Exec.{ok}
use agentic_delegator.Go.Strings.{trim_space}
use agentic_delegator.Config.{
  Config, Conversions, Env, trimmed, get_env_csv, load, missing_settings, check, validate_for_serve,
  refuse, get_env, read_env,
}

trimmed_full : (ps : List String) → All (λ p. is_empty p ≡ false) (trimmed ps)
unfolding trimmed
trimmed_full [] = tt
trimmed_full (p ∷ ps) = elim (Bool-cases (is_empty (trim_space p))) [
  | inl blank ↦ rw blank (trimmed_full ps)
  | inr full ↦ rw full (full, trimmed_full ps)
]

-- No element that a comma-separated setting gives is empty, whatever the variable holds.
pub get_env_csv_full :
    (env : Env) (name def : String) → All (λ p. is_empty p ≡ false) (get_env_csv env name def)
unfolding get_env_csv
get_env_csv_full env name def = trimmed_full _

-- Something is missing for `serve`.
abbrev pub incomplete : Config → Bool
incomplete c =
    (((((((is_zero c.gh_app_id || is_empty c.gh_app_private_key) || is_empty c.gh_app_slug)
              || is_empty c.gh_client_id)
            || is_empty c.gh_client_secret)
          || is_empty c.gh_oauth_redirect_url)
        || is_empty c.gh_webhook_secret)
      || is_empty c.runner_image)

check-nil :
    (name : String) (a b : Bool) (ls : List String)
    → (ls ≡ []) ↔ (a ≡ false)
    → (check name b ls ≡ []) ↔ ((a || b) ≡ false)
unfolding check
check-nil name a true [] before = ground arith
check-nil name a true (s ∷ ls) before = ground arith
check-nil name a false ls before = ground (arith, before.0, before.1)

first_check : (b : Bool) → (check "AGENTIC_GH_APP_ID" b [] ≡ []) ↔ (b ≡ false)
unfolding check
first_check true = ground arith
first_check false = ground arith

missing_settings-nil : (c : Config) → (missing_settings c ≡ []) ↔ (incomplete c ≡ false)
unfolding missing_settings
missing_settings-nil c = check-nil _ _ _ _ (
    check-nil _ _ _ _ (
      check-nil _ _ _ _ (
        check-nil _ _ _ _ (
          check-nil _ _ _ _
            (check-nil _ _ _ _ (check-nil _ _ _ _ (first_check (is_zero c.gh_app_id))))))))

refuse_iff : (ls : List String) → (refuse ls ≡ ok tt) ↔ (ls ≡ [])
refuse_iff [] = (λ h. refl, λ h. refl)
refuse_iff (s ∷ ls) = (λ h. absurd (ground arith), λ h. absurd (ground arith))

-- A configuration is accepted for serving exactly where none of the eight settings it needs is
-- missing.
pub validate_for_serve_iff : (c : Config) → (validate_for_serve c ≡ ok tt) ↔ (incomplete c ≡ false)
unfolding validate_for_serve
validate_for_serve_iff c =
    let empty = refuse_iff (missing_settings c) in
    let none_missing = missing_settings-nil c in
    (λ h. none_missing.0 (empty.0 h), λ h. empty.1 (none_missing.1 h))

get_env-nil : (env : Env) (name : String) → get_env env name "" ≡ env name
unfolding get_env
get_env-nil env name = ground (arith, eq_iff (env name) "")

runner_dns_full :
    (c : Conversions) (env : Env) → All (λ p. is_empty p ≡ false) (read_env c env).runner_dns
unfolding read_env
runner_dns_full c env = get_env_csv_full env "AGENTIC_RUNNER_DNS" "1.1.1.1,1.0.0.1"

-- A configuration that was loaded has a master key of 32 bytes, which the variable spells in
-- hexadecimal, and resolvers none of which is empty.
pub load_sound :
    (c : Conversions) (env : Env) (cfg : Config)
    → load c env ≡ ok cfg
    → (len cfg.master_key ≡ 32)
      × (c.decode_hex (env "AGENTIC_MASTER_KEY") ≡ some cfg.master_key)
      × All (λ p. is_empty p ≡ false) cfg.runner_dns
unfolding load
load_sound c env cfg done =
    let spelling : String = get_env env "AGENTIC_MASTER_KEY" "" in
    elim (Bool-cases (is_empty spelling)) [
      | inl unset ↦ absurd (ground arith)
      | inr set ↦ elim (Option-cases (c.decode_hex spelling)) [
        | inl bad ↦ absurd (ground arith)
        | inr (key, spelled) ↦ elim (Bool-cases (eqb (len key) 32)) [
          | inr short ↦ absurd (ground arith)
          | inl full ↦
              let is_key : key ≡ cfg.master_key = ground arith in
              let dns : (read_env c env).runner_dns ≡ cfg.runner_dns = ground arith in
              (
                ground arith,
                ap c.decode_hex (sym (get_env-nil env "AGENTIC_MASTER_KEY"))
                    ∙ spelled
                    ∙ ap some is_key,
                subst (All (λ p. is_empty p ≡ false)) dns (runner_dns_full c env),
              )
        ]
      ]
    ]
