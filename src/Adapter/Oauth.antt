-- ===== src/Adapter/Oauth.antt =====
-- core/adapter/http/auth/github_oauth.go. The HTTP client and the reading of its JSON answers are
-- parameters.
pub mod Contract
pub mod Accounts
pub mod SignedIn
use agentic_delegator.Prelude.{
  ℕ, String, Bool, true, false, ◌&&◌, not, List, [], ◌∷◌, ◌++◌, Option, none, some, eqb,
  if◌then◌else◌,
}
use agentic_delegator.Prelude.Int.{ℤ}
use agentic_delegator.Prelude.Text.{◌==◌, ◌<>◌, is_empty}
use agentic_delegator.Go.Decimal.{decimal}
use agentic_delegator.Domain.Errors.{Error, opaque, is_error, not_found}
use agentic_delegator.Exec.{Exec, State, Result, ok, err, pure, raise, lift, call, ◌>>=◌, ◌>>◌}
use agentic_delegator.Ports.Small.{IdGenerator, Clock}
use agentic_delegator.Adapter.Reply.{Reply, Incoming, failed, redirect, with_code, try_call}
use agentic_delegator.Adapter.Sessions.{Sessions, Cookie, login, logout}
use agentic_delegator.Adapter.Postgres.Identities.{GitHubIdentity}

pub record IdentitiesRepo (W : Type 0) : Type 0 where
  pub upsert : GitHubIdentity → Exec W (Unit {0})
  pub by_github_id : ℤ → Exec W GitHubIdentity

pub record OauthConfig : Type 0 where
  pub client_id : String
  pub client_secret : String
  pub redirect_url : String
  pub cookie_secure : Bool

-- A request to GitHub: a form that is posted, or a GET with a token.
pub data Outgoing : Type 0 where
  post_form : String → List (String × String) → Outgoing
  get_with_token : String → String → Outgoing

pub record TokenBody : Type 0 where
  pub access_token : String
  pub error : String
  pub error_desc : String

pub record GhUser : Type 0 where
  pub id : ℤ
  pub login : String
  pub email : String

-- `upsert_admin` is the one method of UsersBootstrap; `send` is httpClient.Do and the reading of
-- the answer.
pub record Oauth (W : Type 0) : Type 0 where
  pub cfg : OauthConfig
  pub sessions : Sessions W
  pub identities : IdentitiesRepo W
  pub upsert_admin : String → String → ℕ → Exec W (Unit {0})
  pub id_gen : IdGenerator W
  pub clock : Clock W
  pub send : Outgoing → Exec W Incoming
  pub decode_token : String → Result TokenBody
  pub decode_user : String → Result GhUser

-- The state cookie with its MaxAge, `none` where it is removed, and the session cookie.
pub data SetCookie : Type 0 where
  state_cookie : String → Option ℕ → Bool → SetCookie
  session_cookie : Cookie → SetCookie

pub record Answer : Type 0 where
  pub reply : Reply
  pub cookies : List SetCookie

-- What the callback reads of its request.
pub record Request : Type 0 where
  pub state_cookie : Option String
  pub state : String
  pub code : String
  pub session : Option (List ℕ)

-- The state is there, and is the cookie's.
unfoldable pub state_matches : Request → Bool
state_matches r = not (is_empty r.state) && same r.state_cookie
  where
    same : Option String → Bool
    same none = false
    same (some v) = v == r.state

abbrev pub clear_state : SetCookie
clear_state = state_cookie "" none false

abbrev failing : ℕ → Error → Answer
failing code e = record { reply = with_code code e; cookies = clear_state ∷ [] }

-- The query, in the order of url.Values.Encode, by key.
abbrev authorize_query : OauthConfig → String → List (String × String)
authorize_query cfg state =
    ("client_id", cfg.client_id)
    ∷ ("redirect_uri", cfg.redirect_url)
    ∷ ("scope", "read:user user:email")
    ∷ ("state", state)
    ∷ []

abbrev pub token_request : OauthConfig → String → Outgoing
token_request cfg code =
    post_form "https://github.com/login/oauth/access_token"
      (("client_id", cfg.client_id) ∷ ("client_secret", cfg.client_secret) ∷ ("code", code) ∷ [])

abbrev pub user_request : String → Outgoing
user_request token = get_with_token "https://api.github.com/user" token

module _ {W : Type 0} (o : Oauth W) where
  -- The cookie that is set, and the query of the page of GitHub that the browser is sent to.
  unfoldable pub login_page : State W (SetCookie × List (String × String))
  login_page w =
      let (state, w') = o.id_gen.new_job_id w in
      ((state_cookie state (some 600) o.cfg.cookie_secure, authorize_query o.cfg state), w')

  abbrev token_of : TokenBody → Result String
  token_of b =
      if not (is_empty b.error)
      then err (opaque ("github oauth: " <> b.error <> ": " <> b.error_desc))
      else ok b.access_token

  unfoldable pub exchange_code : String → Exec W String
  exchange_code code = do
    resp ← o.send (token_request o.cfg code)
    parsed ← lift (o.decode_token resp.body)
    lift (token_of parsed)

  unfoldable pub fetch_user : String → Exec W GhUser
  fetch_user token = do
    resp ← o.send (user_request token)
    if not (eqb resp.code 200)
        then raise (opaque ("github api " <> decimal resp.code <> ": " <> resp.body))
        else lift (o.decode_user resp.body)

  abbrev known_or_none : Result GitHubIdentity → Result (Option GitHubIdentity)
  known_or_none (ok i) = ok (some i)
  known_or_none (err e) = if is_error e not_found then ok none else err e

  -- id, err := ByGitHubID, where ErrNotFound is no error and leaves id nil
  unfoldable pub look_up : ℤ → Exec W (Option GitHubIdentity)
  look_up id w = let (r, w') = o.identities.by_github_id id w in (known_or_none r, w')

  -- uid: the identity's user, or a new one
  unfoldable pub user_for : GhUser → Option GitHubIdentity → Exec W String
  user_for u (some i) = pure i.user_id
  user_for u none = do
    uid ← call o.id_gen.new_user_id
    now ← call o.clock.now
    o.upsert_admin uid u.login now
    pure uid

  abbrev pub identity_for : GhUser → String → GitHubIdentity
  identity_for u uid = record {
    user_id = uid;
    github_id = u.id;
    github_login = u.login;
    email = u.email;
  }

  abbrev pub logged_out : Result Cookie → List SetCookie
  logged_out (ok c) = session_cookie c ∷ []
  logged_out (err e) = []

  -- The old session is dropped, and a new one made.
  unfoldable pub renew_session : Option (List ℕ) → String → State W Answer
  renew_session old uid w =
      let (gone, w') = logout o.sessions old w in
      let before = clear_state ∷ logged_out gone in
      try_call (login o.sessions uid) (λ e. record { reply = with_code 500 e; cookies = before })
        (λ c w''. (
          record { reply = redirect "/dashboard"; cookies = before ++ session_cookie c ∷ [] },
          w'',
        ))
        w'

  unfoldable pub sign_in : Request → State W Answer
  sign_in r = try_call (exchange_code r.code) (failing 502) λ tok.
      try_call (fetch_user tok) (failing 502) λ u. try_call (look_up u.id) (failing 500) λ known.
        try_call (user_for u known) (failing 500) λ uid.
          try_call (o.identities.upsert (identity_for u uid)) (failing 500)
            λ done. renew_session r.session uid

  unfoldable pub callback : Request → State W Answer
  callback r w =
      if not (state_matches r)
      then (record { reply = failed 400 "invalid oauth state"; cookies = [] }, w)
      else if is_empty r.code
      then (record { reply = failed 400 "missing code"; cookies = clear_state ∷ [] }, w)
      else sign_in r w
