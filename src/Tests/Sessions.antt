-- ===== src/Tests/Sessions.antt =====
-- Sessions over a table in memory, and identifiers.
use agentic_delegator.Adapter.Postgres.Sessions as Repo
use agentic_delegator.Prelude.{
  ℕ, zero, suc, bytes_eq, true, ◌≡◌, refl, ap, inl, inr, Option-cases, List, [], ◌∷◌, some, length,
  subst, arith,
}
use agentic_delegator.Domain.Errors.{Error}
use agentic_delegator.Exec.{State, ok, err}
use agentic_delegator.Go.Hex.{encode, IsBytes}
use agentic_delegator.Ports.Jobs.{Answers}
use agentic_delegator.Adapter.Postgres.Table.Memory.{memory_table, rows_in, memory_table-IsTable}
use agentic_delegator.Adapter.Postgres.Models.{SessionRow}
use agentic_delegator.Adapter.Postgres.Sessions.{
  session_id, sessions_repo, sessions_of, sessions_repo-SessionsContract,
}
use agentic_delegator.Adapter.Postgres.Table.{passing}
use agentic_delegator.Go.Map
use agentic_delegator.Adapter.Sessions.{lax, Sessions, Cookie, login, logout, user_from_request}
use agentic_delegator.Adapter.Sessions.Lifetime.{login-logout}

abbrev pub zero_bytes : ℕ → List ℕ
zero_bytes zero = []
zero_bytes (suc n) = 0 ∷ zero_bytes n

pub zero_bytes-IsBytes : (n : ℕ) → IsBytes (zero_bytes n)
zero_bytes-IsBytes zero = tt
zero_bytes-IsBytes (suc n) = (refl, zero_bytes-IsBytes n)

abbrev sessions : Sessions (List SessionRow)
sessions = record {
  store = sessions_repo (λ w. 7) (memory_table session_id);
  secure = true;
  random = λ n w. (ok (zero_bytes n), w);
  now = λ w. (5, w);
}

-- A row of another session, which has expired.
abbrev expired : List SessionRow
expired = record { id = 9 ∷ []; user_id = "u_2"; expires_at = 1 } ∷ []

abbrev cookie : Cookie
cookie = record {
  value = encode (zero_bytes 32);
  name = "agdsess";
  expires = some 2592000000000005;
  max_age = some 2592000;
  http_only = true;
  same_site = lax;
  path = "/";
  secure = true;
}

-- A table in memory does not fail.
deletes : (id : List ℕ) (m : List SessionRow) → (sessions.store.delete id m).0 ≡ ok tt
unfolding Repo.delete
deletes id m = elim (Option-cases (passing (λ r. true) (Map.lookup session_id id m))) [
  | inl missing ↦ rw missing refl
  | inr (r, there) ↦ rw there refl
]

login-logout_example :
    Answers
      (user_from_request sessions (some cookie.value) (login sessions "u_1" expired).1)
      (ok "u_1")
      (login sessions "u_1" expired).1
    × ((e : Error) × ((user_from_request sessions
            (some cookie.value)
            (logout sessions (some cookie.value) (login sessions "u_1" expired).1).1).0
          ≡ err e))
unfolding login Repo.create Map.lookup Map.insert
login-logout_example =
    login-logout sessions
      (sessions_of (λ w. 7) (memory_table session_id) (rows_in session_id)
        (memory_table-IsTable session_id))
      (λ w. 7)
      (sessions_repo-SessionsContract (λ w. 7) (memory_table session_id) (rows_in session_id)
        (memory_table-IsTable session_id))
      (λ w id drawn.
        subst (λ v. (length v ≡ 32) × IsBytes v) (ap (λ r. elim r [ ok v ↦ v | err e ↦ [] ]) drawn)
          (refl, zero_bytes-IsBytes 32))
      "u_1" expired cookie refl (omega arith) (λ id. deletes id (login sessions "u_1" expired).1)

zero_bytes-length : (n : ℕ) → length (zero_bytes n) ≡ n
zero_bytes-length zero = refl
zero_bytes-length (suc n) = ap suc (zero_bytes-length n)

abbrev zero_random : ℕ → State (List SessionRow) (List ℕ)
zero_random n w = (zero_bytes n, w)
