-- ===== src/Adapter/Ghapp/AppClient.antt =====
-- core/adapter/ghapp/app_jwt.go. The ghinstallation library is a parameter.
use agentic_delegator.Prelude.{ℕ, ◌+◌, String}
use agentic_delegator.Prelude.Int.{ℤ}
use agentic_delegator.Prelude.Text.{◌<>◌}
use agentic_delegator.Domain.Errors.{wrap, error_text}
use agentic_delegator.Exec.{Exec, State, Result, ok, err, pure, lift, call, ◌>>=◌}

pub record AppCreds : Type 0 where
  pub app_id : ℤ
  pub private_key_pem : String

-- `transport` is ghinstallation.New, and `token` the transport's Token; `now` is time.Now.
pub record AppClient (W T : Type 0) : Type 0 where
  pub creds : AppCreds
  pub transport : ℤ → ℤ → String → Result T
  pub token : T → Exec W String
  pub now : State W ℕ

-- Fifty minutes in nanoseconds.
abbrev token_life : ℕ
token_life = 3000000000000

-- fmt.Errorf("what: %w", err)
abbrev pub wrapped : {A : Type 0} → String → Result A → Result A
wrapped what (ok a) = ok a
wrapped what (err e) = err (wrap e (what <> ": " <> error_text e))

unfoldable pub installation_token : {W T : Type 0} → AppClient W T → ℤ → Exec W (String × ℕ)
installation_token a id = do
  tr ← lift (wrapped "ghinstallation.New" (a.transport a.creds.app_id id a.creds.private_key_pem))
  tok ← (λ w. let (r, w') = a.token tr w in (wrapped "Token" r, w'))
  now ← call a.now
  pure (tok, now + token_life)
