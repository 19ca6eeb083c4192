-- ===== src/Adapter/Http/Response.antt =====
-- writeJSON, writeJSONError and writeDomainError of core/adapter/http/jobs_handler.go.
use agentic_delegator.Prelude.{ℕ, String, ◌||◌, List, if◌then◌else◌}
use agentic_delegator.Domain.Errors.{
  Error, is_error, error_text, not_found, conflict, forbidden, invalid_state,
}
use agentic_delegator.Domain.Job.{Job}
use agentic_delegator.Exec.{Exec, State, Result, ok, err}

-- The values that the handlers encode.
pub data Body : Type 0 where
  empty : Body
  failure : String → Body
  one_job : Job → Body
  jobs : List Job → Body
  enqueued : String → String → Body
  minted : String → String → String → Body

pub record Response : Type 0 where
  pub code : ℕ
  pub body : Body

unfoldable pub error_response : ℕ → String → Response
error_response code msg = record { code = code; body = failure msg }

unfoldable pub domain_error : Error → Response
unfolding error_response
domain_error e =
    if is_error e not_found
    then error_response 404 (error_text e)
    else if is_error e forbidden
    then error_response 403 (error_text e)
    else if is_error e conflict || is_error e invalid_state
    then error_response 409 (error_text e)
    else error_response 400 (error_text e)

-- out, err := execute(); if err != nil { write the error; return }; write the answer
abbrev pub answer : {A : Type 0} → (Error → Response) → (A → Response) → Result A → Response
answer on_err on_ok (ok a) = on_ok a
answer on_err on_ok (err e) = on_err e

abbrev pub respond :
    {W A : Type 0} → (Error → Response) → (A → Response) → Exec W A → State W Response
respond on_err on_ok m w = let (r, w') = m w in (answer on_err on_ok r, w')
