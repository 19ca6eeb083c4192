-- ===== src/Adapter/Sessions.antt =====
-- core/adapter/http/auth/sessions.go: sessions in cookies. A session ID is a list of bytes.
pub mod Lifetime
use agentic_delegator.Prelude.{
  ℕ, ◌+◌, String, Bool, true, false, List, [], Option, none, some, length, eqb, if◌then◌else◌,
}
use agentic_delegator.Domain.Errors.{opaque}
use agentic_delegator.Exec.{◌>>◌, Exec, State, pure, raise, call, ignore, ◌>>=◌}
use agentic_delegator.Go.Hex.{encode, decode}

pub record SessionStore (W : Type 0) : Type 0 where
  pub create : List ℕ → String → ℕ → Exec W (Unit {0})
  pub resolve_user : List ℕ → Exec W String
  pub delete : List ℕ → Exec W (Unit {0})

-- `random` is rand.Read of so many bytes, and `now` is time.Now.
pub record Sessions (W : Type 0) : Type 0 where
  pub store : SessionStore W
  pub secure : Bool
  pub random : ℕ → Exec W (List ℕ)
  pub now : State W ℕ

-- What a cookie says of SameSite: nothing, or lax.
pub data SameSite : Type 0 where
  unspecified : SameSite
  lax : SameSite

-- The cookie that is set. A negative MaxAge removes it: that is `none`; no Expires is `none` too.
pub record Cookie : Type 0 where
  pub name : String
  pub value : List ℕ
  pub expires : Option ℕ
  pub max_age : Option ℕ
  pub http_only : Bool
  pub same_site : SameSite
  pub path : String
  pub secure : Bool

abbrev pub cookie_name : String
cookie_name = "agdsess"

-- Thirty days in seconds, and in nanoseconds.
abbrev cookie_max_age_seconds : ℕ
cookie_max_age_seconds = 2592000

abbrev pub cookie_max_age : ℕ
cookie_max_age = 2592000000000000

abbrev full_length : Option (List ℕ) → Option (List ℕ)
full_length none = none
full_length (some id) = if eqb (length id) 32 then some id else none

unfoldable pub decode_cookie_value : List ℕ → Option (List ℕ)
decode_cookie_value v = full_length (decode v)

module _ {W : Type 0} (s : Sessions W) where
  unfoldable pub login : String → Exec W Cookie
  login user_id = do
    id ← s.random 32
    t ← call s.now
    s.store.create id user_id (t + cookie_max_age)
    pure (record {
      name = cookie_name;
      value = encode id;
      expires = some (t + cookie_max_age);
      max_age = some cookie_max_age_seconds;
      http_only = true;
      same_site = lax;
      path = "/";
      secure = s.secure;
    })

  delete_session : Option (List ℕ) → Exec W (Unit {0})
  delete_session none = pure tt
  delete_session (some id) = ignore (s.store.delete id)

  resolve_session : Option (List ℕ) → Exec W String
  resolve_session none = raise (opaque "invalid session cookie")
  resolve_session (some id) = s.store.resolve_user id

  abbrev removed : Cookie
  removed = record {
    name = cookie_name;
    value = [];
    expires = none;
    max_age = none;
    http_only = false;
    secure = false;
    same_site = unspecified;
    path = "/";
  }

  -- The request's cookie, if it has one.
  unfoldable pub logout : Option (List ℕ) → Exec W Cookie
  unfolding delete_session
  logout none = pure removed
  logout (some v) = do delete_session (decode_cookie_value v); pure removed

  unfoldable pub user_from_request : Option (List ℕ) → Exec W String
  unfolding resolve_session
  user_from_request none = raise (opaque "no session cookie")
  user_from_request (some v) = resolve_session (decode_cookie_value v)
