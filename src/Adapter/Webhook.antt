-- ===== src/Adapter/Webhook.antt =====
-- core/adapter/webhook/http_webhook.go. The HTTP client is a parameter: one request, answered by a
-- status and a body, or an error.
pub mod Attempts
use agentic_delegator.Prelude.{ℕ, zero, suc, ◌*◌, ◌^◌, ◌-◌, String, Bool, leb, if◌then◌else◌}
use agentic_delegator.Prelude.Text.{◌<>◌}
use agentic_delegator.Domain.Errors.{Error, opaque, wrap, error_text}
use agentic_delegator.Exec.{Exec, Result, ok, err, pure, raise, attempt, ◌>>=◌, ◌>>◌}
use agentic_delegator.Go.Decimal.{decimal}

abbrev pub max_attempts : ℕ
max_attempts = 3

-- `body` is what is read of it, at most 1024 bytes.
pub record HttpResponse : Type 0 where
  pub status : ℕ
  pub body : String

-- `post` sends one request; `pause` waits, or fails where the context is done first.
pub record HttpWebhook (W : Type 0) : Type 0 where
  pub post : String → String → Exec W HttpResponse
  pub pause : ℕ → Exec W (Unit {0})
  pub backoff : ℕ

module _ {W : Type 0} (h : HttpWebhook W) where
  unfoldable pub attempt_once : String → String → Exec W (Unit {0})
  attempt_once url payload = do
    resp ← h.post url payload
    if leb 400 resp.status
        then raise (opaque (url <> " returned " <> decimal resp.status <> ": " <> resp.body))
        else pure tt

  again : (Error → Exec W (Unit {0})) → Result (Unit {0}) → Exec W (Unit {0})
  again later (ok x) = pure tt
  again later (err x) = later x

  give_up : Error → Error
  give_up e = wrap e ("webhook: giving up after 3 attempts: " <> error_text e)

  -- The attempts that are left, after `done` of them failed, the last one with `e`.
  unfoldable pub retry : ℕ → ℕ → Error → String → String → Exec W (Unit {0})
  unfolding give_up again
  retry zero done e url payload = raise (give_up e)
  retry (suc left) done e url payload = do
    h.pause (h.backoff * 2 ^ (done - 1))
    r ← attempt (attempt_once url payload)
    again (λ x. retry left (suc done) x url payload) r

  unfoldable pub dispatch : String → String → Exec W (Unit {0})
  unfolding again
  dispatch url payload = do
    r ← attempt (attempt_once url payload)
    again (λ x. retry 2 1 x url payload) r
