-- ===== src/Adapter/Sessions/Lifetime.antt =====
-- How long a session of core/adapter/http/auth/sessions.go lasts: what its store promises, and what
-- a login and a logout make of that.
use agentic_delegator.Prelude.{
  ℕ, ◌+◌, ◌≤◌, String, ◌≡◌, refl, ap, ◌∙◌, ◌⊎◌, inl, inr, List, Option, none, some, length, ltb,
  if◌then◌else◌, arith, bytes_eq, beq_refl,
}
use agentic_delegator.Domain.Errors.{Error, sentinel, opaque, not_found}
use agentic_delegator.Exec.{Result, ok, err, Result-cases}
use agentic_delegator.Go.Hex.{encode, IsBytes, decode-encode}
use agentic_delegator.Ports.Jobs.{Answers}
use agentic_delegator.Adapter.Sessions.{
  SessionStore, Sessions, Cookie, login, logout, user_from_request, decode_cookie_value,
  cookie_max_age,
}

-- A session's user and when it expires.
abbrev pub Stored : Type 0
Stored = Option (String × ℕ)

-- Whom a stored session stands for at a time.
abbrev pub holder : ℕ → Stored → Result String
holder now none = err (sentinel not_found)
holder now (some (user, expires)) = if ltb expires now then err (sentinel not_found) else ok user

-- What the store promises, errors of the store included. `stored` gives the session of an ID, and
-- `clock` the time that the store reads.
pub record SessionsContract {W : Type 0} (store : SessionStore W) (stored : W → List ℕ → Stored)
    (clock : W → ℕ) : Type 0 where
  pub create_lem :
      (id : List ℕ) (user : String) (t : ℕ) (w : W)
      → (((store.create id user t w).0 ≡ ok tt)
          × (stored (store.create id user t w).1 ≡ λ k.
              if bytes_eq.beq id k then some (user, t) else stored w k))
        ⊎ ((e : Error) × (store.create id user t w ≡ (err e, w)))
  pub delete_lem :
      (id : List ℕ) (w : W)
      → (((store.delete id w).0 ≡ ok tt)
          × (stored (store.delete id w).1 ≡ λ k. if bytes_eq.beq id k then none else stored w k))
        ⊎ ((e : Error) × (store.delete id w ≡ (err e, w)))
  pub resolve_lem :
      (id : List ℕ) (w : W) → Answers (store.resolve_user id w) (holder (clock w) (stored w id)) w

module _ {W : Type 0} (s : Sessions W) (stored : W → List ℕ → Stored) (clock : W → ℕ)
    (contract : SessionsContract s.store stored clock)
    (fills : (w : W) (id : List ℕ)
      → (s.random 32 w).0 ≡ ok id
      → (length id ≡ 32) × IsBytes id) where
  open contract use {create_lem, delete_lem, resolve_lem}

  -- When the session of a login from `w` expires.
  abbrev pub expiry : W → ℕ
  expiry w = (s.now (s.random 32 w).1).0 + cookie_max_age

  pub logged_in :
      (user : String) (w : W) (c : Cookie)
      → (login s user w).0 ≡ ok c
      → (id : List ℕ) × (decode_cookie_value c.value ≡ some id)
        × (stored (login s user w).1 id ≡ some (user, expiry w))
  unfolding login decode_cookie_value
  logged_in user w c done = elim (Result-cases (s.random 32 w).0) [
    | inr (e, broken) ↦ absurd (ground arith)
    | inl (id, drawn) ↦
        let w2 : W = (s.now (s.random 32 w).1).1 in
        let (size, bytes) = fills w id drawn in
        elim (create_lem id user (expiry w) w2) [
          | inr (e, broken) ↦ absurd (ground arith)
          | inl (fine, there) ↦
              let ends : (login s user w).1 ≡ (s.store.create id user (expiry w) w2).1 =
                ground arith in
              let made : c.value ≡ encode id = ground arith in
              (
                id,
                rw (made, decode-encode id bytes) (ground arith),
                ap (λ v. stored v id) ends
                    ∙ ap (λ (t : List ℕ → Stored). t id) there
                    ∙ rw (beq_refl id) refl,
              )
        ]
  ]

  -- Given the contract of the sessions store and a random source that fills the ID with bytes: the
  -- cookie that a login sets resolves, while its session has not expired, to the user that logged
  -- in, or the store fails; and right after a logout with that cookie it resolves to no user, where
  -- the store did not fail to delete the session.
  pub login-logout :
      (user : String) (w : W) (c : Cookie)
      → (login s user w).0 ≡ ok c
      → clock (login s user w).1 ≤ expiry w
      → ((id : List ℕ) → (s.store.delete id (login s user w).1).0 ≡ ok tt)
      → Answers (user_from_request s (some c.value) (login s user w).1) (ok user) (login s user w).1
        × ((e : Error) × ((user_from_request s
                (some c.value)
                (logout s (some c.value) (login s user w).1).1).0
              ≡ err e))
  unfolding user_from_request logout
  login-logout user w c done prompt deletes =
      let (id, spelled, there) = logged_in user w c done in
      let w1 : W = (login s user w).1 in
      let w2 : W = (s.store.delete id w1).1 in
      (
        elim (resolve_lem id w1) [
          | inl found ↦ inl (ground arith)
          | inr (m, broken) ↦ inr (m, ground arith)
        ],
        elim (delete_lem id w1) [
          | inr (e, broken) ↦ absurd (ground (arith, deletes id))
          | inl (fine, removes) ↦
              let gone : stored w2 id ≡ none =
                ap (λ (t : List ℕ → Stored). t id) removes ∙ rw (beq_refl id) refl in
              elim (resolve_lem id w2) [
                | inl found ↦ (sentinel not_found, ground arith)
                | inr (m, broken) ↦ (opaque m, ground arith)
              ]
        ],
      )
