-- ===== src/Tests/Oauth.antt =====
-- The sign-in and the installation of the App over tables in memory.
use agentic_delegator.Adapter.Postgres.Sessions as Repo
use agentic_delegator.Prelude.{
  ℕ, String, true, false, ◌≡◌, refl, ap, List, [], ◌∷◌, ◌++◌, Option, none, some, length, subst,
  int_eq, bytes_eq,
}
use agentic_delegator.Prelude.Int.{ℤ, pos}
use agentic_delegator.Prelude.Text.{is_empty}
use agentic_delegator.Exec.{ok, err}
use agentic_delegator.Go.Hex.{IsBytes}
use agentic_delegator.Go.Map
use agentic_delegator.Testutil.World.Lens.{Lens}
use agentic_delegator.Adapter.Reply.{redirect}
use agentic_delegator.Adapter.Sessions.{Cookie, login, logout, decode_cookie_value}
use agentic_delegator.Adapter.Postgres.Table.{Table, IsTable}
use agentic_delegator.Adapter.Postgres.Table.World.{on_table, on_table-IsTable}
use agentic_delegator.Adapter.Postgres.Table.Memory.{memory_table, rows_in, memory_table-IsTable}
use agentic_delegator.Adapter.Postgres.Models.{IdentityRow, SessionRow}
use agentic_delegator.Adapter.Postgres.Identities
use agentic_delegator.Adapter.Postgres.Identities.{GitHubIdentity}
use agentic_delegator.Adapter.Postgres.Identities.Laws.{
  identity_key, identities_repo, identities_of, identities_repo-IdentitiesContract,
}
use agentic_delegator.Adapter.Postgres.Sessions.{
  session_id, sessions_repo, sessions_of, sessions_repo-SessionsContract,
}
use agentic_delegator.Adapter.Oauth.{
  Oauth, Request, SetCookie, GhUser, session_cookie, state_matches, exchange_code, fetch_user,
  look_up, user_for, renew_session, sign_in, callback,
}
use agentic_delegator.Adapter.Oauth.SignedIn.{callback-signed_in}
use agentic_delegator.Tests.Sessions.{zero_bytes, zero_bytes-IsBytes}

abbrev Db : Type 0
Db = List IdentityRow × List SessionRow

abbrev in_identities : Lens Db (List IdentityRow)
in_identities = record {
  view = λ w. w.0;
  put_back = λ s w. (s, w.1);
  view-put_back = λ s w. refl;
  put_back-view = λ w. refl;
}

abbrev in_sessions : Lens Db (List SessionRow)
in_sessions = record {
  view = λ w. w.1;
  put_back = λ s w. (w.0, s);
  view-put_back = λ s w. refl;
  put_back-view = λ w. refl;
}

abbrev identities : Table Db ℤ IdentityRow
identities = on_table in_identities (memory_table identity_key)

abbrev identity_rows : Db → ℤ → Option IdentityRow
identity_rows w = rows_in identity_key w.0

identities-IsTable : IsTable identities identity_key identity_rows
identities-IsTable =
    on_table-IsTable in_identities (memory_table identity_key) identity_key (rows_in identity_key)
      (memory_table-IsTable identity_key)

abbrev session_table : Table Db (List ℕ) SessionRow
session_table = on_table in_sessions (memory_table session_id)

abbrev session_rows : Db → List ℕ → Option SessionRow
session_rows w = rows_in session_id w.1

session_table-IsTable : IsTable session_table session_id session_rows
session_table-IsTable =
    on_table-IsTable in_sessions (memory_table session_id) session_id (rows_in session_id)
      (memory_table-IsTable session_id)

abbrev oauth : Oauth Db
oauth = record {
  cfg = record {
    client_id = "c";
    client_secret = "s";
    redirect_url = "https://x/auth/github/callback";
    cookie_secure = true;
  };
  sessions = record {
    store = sessions_repo (λ w. 7) session_table;
    secure = true;
    random = λ n w. (ok (zero_bytes n), w);
    now = λ w. (5, w);
  };
  identities = identities_repo identities;
  upsert_admin = λ id name now w. (ok tt, w);
  id_gen = record {
    new_job_id = λ w. ("j_1", w);
    new_api_key_id = λ w. ("k_1", w);
    new_user_id = λ w. ("u_9", w);
    new_api_key_plaintext = λ w. (("agdkey_x", "agdkey_x"), w);
  };
  clock = record { now = λ w. (5, w) };
  send = λ q w. (ok (record { code = 200; body = "x" }), w);
  decode_token = λ b. ok (record { access_token = "t"; error = ""; error_desc = "" });
  decode_user = λ b. ok (record { id = pos 7; login = "octo"; email = "" });
}

-- The account 7 is known, as another login.
abbrev db : Db
db = (record { user_id = "u_1"; github_id = pos 7; github_login = "old"; email = "" } ∷ [], [])

abbrev request : Request
request = record { state_cookie = some "j_1"; state = "j_1"; code = "abc"; session = none }

abbrev known_identities : Db → ℤ → Option GitHubIdentity
known_identities = identities_of identities identity_rows identities-IsTable

abbrev known_sessions : Db → List ℕ → Option (String × ℕ)
known_sessions = sessions_of (λ w. 7) session_table session_rows session_table-IsTable

reaches_dashboard : (callback oauth request db).0.reply ≡ redirect "/dashboard"
unfolding callback sign_in state_matches exchange_code fetch_user look_up Identities.by_github_id
    Map.lookup user_for Identities.upsert renew_session login Repo.create logout
reaches_dashboard = refl

callback-signed_in_example :
    ((request.state_cookie ≡ some request.state) × (is_empty request.state ≡ false))
    × (tok : String) × (u : GhUser) × (uid : String) × (c : Cookie) × (id : List ℕ) × (t : ℕ)
    × ((exchange_code oauth request.code db).0 ≡ ok tok)
    × ((fetch_user oauth tok (exchange_code oauth request.code db).1).0 ≡ ok u)
    × ((prev : GitHubIdentity) → known_identities db u.id ≡ some prev → uid ≡ prev.user_id)
    × (known_identities db u.id ≡ none
        → uid
          ≡ (oauth.id_gen.new_user_id
              (fetch_user oauth tok (exchange_code oauth request.code db).1).1).0)
    × ((w' : Db) × (callback oauth request db ≡ renew_session oauth request.session uid w')
        × (g : GitHubIdentity) × (known_identities w' u.id ≡ some g)
        × (g.user_id ≡ uid))
    × (decode_cookie_value c.value ≡ some id)
    × (known_sessions (callback oauth request db).1 id ≡ some (uid, t))
    × (front : List SetCookie) × ((callback oauth request db).0.cookies
        ≡ front ++ session_cookie c ∷ [])
callback-signed_in_example =
    callback-signed_in oauth known_identities
      (identities_repo-IdentitiesContract identities identity_rows identities-IsTable)
      known_sessions (λ w. 7)
      (sessions_repo-SessionsContract (λ w. 7) session_table session_rows session_table-IsTable)
      (λ w id drawn.
        subst (λ v. (length v ≡ 32) × IsBytes v) (ap (λ r. elim r [ ok v ↦ v | err e ↦ [] ]) drawn)
          (refl, zero_bytes-IsBytes 32))
      (λ q w. refl) (λ w. refl) (λ w. refl) (λ id name at w. refl) request db reaches_dashboard
