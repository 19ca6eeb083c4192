-- ===== src/Adapter/Webhook/Attempts.antt =====
-- How often a webhook is sent, and how long is waited in between.
use agentic_delegator.Prelude.{
  ℕ, suc, ◌+◌, ◌*◌, String, Bool, true, false, Option, none, some, ◌≡◌, inl, inr, leb,
  if◌then◌else◌, Bool-cases, arith, ◌&&◌, not,
}
use agentic_delegator.Domain.Errors.{opaque}
use agentic_delegator.Exec.{Result, ok, err}
use agentic_delegator.Adapter.Webhook.{HttpWebhook, HttpResponse, attempt_once, retry, dispatch}

-- A receiver by a script: one status for each request, or none where the request ends in an error
-- of the transport; and a clock that only the pauses move.
pub record Line : Type 0 where
  pub sent : ℕ
  pub waited : ℕ

abbrev answered : String → Option ℕ → Result HttpResponse
answered reason none = err (opaque reason)
answered reason (some status) = ok (record { status = status; body = reason })

-- `reason` is what an error says, or the body of an answer.
abbrev pub scripted : (ℕ → Option ℕ) → (ℕ → String) → ℕ → HttpWebhook Line
scripted script reason backoff = record {
  post =
      λ url payload w. (answered (reason w.sent) (script w.sent), record w { sent = suc w.sent });
  pause = λ t w. (ok tt, record w { waited = w.waited + t });
  backoff = backoff;
}

abbrev pub accepts : Result (Unit {0}) → Bool
accepts (ok x) = true
accepts (err e) = false

-- No answer, or one of 400 and above.
abbrev pub is_failure : Option ℕ → Bool
is_failure none = true
is_failure (some status) = leb 400 status

abbrev fails : (ℕ → Option ℕ) → ℕ → Bool
fails script n = is_failure (script n)

-- Where pauses are not interrupted, and whether a request is answered with a status or ends in an
-- error of the transport: a webhook is sent until a status below 400 comes back, three times at
-- most, with pauses of one and two backoffs before the second and the third time, and it is reported
-- as delivered exactly where such a status came back.
pub dispatch_attempts :
    (script : ℕ → Option ℕ) (reason : ℕ → String) (backoff : ℕ) (url payload : String)
    → let r =
        dispatch (scripted script reason backoff) url payload (record { sent = 0; waited = 0 }) in
      let ends : ℕ × ℕ =
        if fails script 0
        then (if fails script 1 then (3, 3 * backoff) else (2, backoff))
        else (1, 0) in
      (accepts r.0 ≡ not (fails script 0 && (fails script 1 && fails script 2)))
      × (r.1 ≡ record { sent = ends.0; waited = ends.1 })
unfolding dispatch retry attempt_once
dispatch_attempts script reason backoff url payload = elim (Bool-cases (fails script 0)) [
  | inr good ↦ ground arith
  | inl bad ↦ elim (Bool-cases (fails script 1)) [
    | inr good ↦ ground arith
    | inl worse ↦ elim (Bool-cases (fails script 2)) [
      | inr good ↦ ground arith
      | inl worst ↦ ground arith
    ]
  ]
]
