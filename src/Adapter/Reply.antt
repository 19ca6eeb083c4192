-- ===== src/Adapter/Reply.antt =====
-- What the handlers for browsers write: http.Error, http.Redirect with StatusFound, and the calls
-- that end a handler where they fail; and an answer that the handlers get from GitHub.
use agentic_delegator.Prelude.{ℕ, String}
use agentic_delegator.Domain.Errors.{Error, error_text}
use agentic_delegator.Exec.{Exec, State, Result, ok, err}

pub data Reply : Type 0 where
  failed : ℕ → String → Reply
  redirect : String → Reply

pub record Incoming : Type 0 where
  pub code : ℕ
  pub body : String

-- http.Error(w, err.Error(), code)
abbrev pub with_code : ℕ → Error → Reply
with_code code e = failed code (error_text e)

abbrev pub on_result : {W A B : Type 0} → (Error → B) → (A → State W B) → Result A → State W B
on_result f g (ok a) w = g a w
on_result f g (err e) w = (f e, w)

-- v, err := call(); if err != nil { reply; return }
abbrev pub try_call : {W A B : Type 0} → Exec W A → (Error → B) → (A → State W B) → State W B
try_call m f g w = let (r, w') = m w in on_result f g r w'
