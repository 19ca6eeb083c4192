-- ===== src/Cmd/Platform.antt =====
-- What cmd/agentic-delegator/main.go stands on: the database, the machine, and what is read of a
-- request.
use agentic_delegator.Prelude.{ℕ, String, List, Option}
use agentic_delegator.Prelude.Int.{ℤ}
use agentic_delegator.Exec.{Exec, State, Result}
use agentic_delegator.Usecase.Completion.{CompletionPayload}
use agentic_delegator.Adapter.Crypto.{Aead}
use agentic_delegator.Adapter.Docker.Files.{Host}
use agentic_delegator.Adapter.Docker.Startup.{Sweeper}
use agentic_delegator.Adapter.Ghapp.Install.{Repository}
use agentic_delegator.Adapter.Ghapp.Webhooks
use agentic_delegator.Adapter.Ghapp.Webhooks.{Payload, Seen}
use agentic_delegator.Adapter.Http.Jobs.{EnqueueBody}
use agentic_delegator.Adapter.Keyhash.{Bcrypt}
use agentic_delegator.Adapter.Oauth
use agentic_delegator.Adapter.Oauth.{Oauth, Outgoing, TokenBody, GhUser}
use agentic_delegator.Adapter.Postgres.Installations.{Json}
use agentic_delegator.Adapter.Postgres.Models.{
  JobRow, ApiKeyRow, UserSecretRow, SessionRow, IdentityRow, InstallationRow, UserRow,
}
use agentic_delegator.Adapter.Postgres.Table.{Table}
use agentic_delegator.Adapter.Reply.{Incoming}
use agentic_delegator.Adapter.Webhook.{HttpResponse}

-- The tables of the database.
pub record Database (W : Type 0) : Type 0 where
  pub jobs : Table W String JobRow
  pub api_keys : Table W String ApiKeyRow
  pub secrets : Table W String UserSecretRow
  pub sessions : Table W (List ℕ) SessionRow
  pub identities : Table W ℤ IdentityRow
  pub installations : Table W ℤ InstallationRow
  pub users : Table W String UserRow
  pub ping : Exec W (Unit {0})

-- What a request of type `R` holds, as the handlers read it.
pub record Reading (R : Type 0) : Type 0 where
  pub authorization : R → String
  pub session_cookie : R → Option (List ℕ)
  pub oauth_request : R → Oauth.Request
  pub installation_id : R → String
  pub delivery : R → Webhooks.Request
  pub enqueue_body : R → Result EnqueueBody
  pub limit : R → Option ℤ
  pub text_body : R → Result String

-- The machine, Go's libraries and third-party code; `T` is ghinstallation's transport. The handler
-- of webhooks keeps what it has seen in the world.
pub record Platform (W T : Type 0) : Type 0 where
  pub time : W → ℕ
  pub random : ℕ → Exec W (List ℕ)
  pub random_bytes : ℕ → State W (List ℕ)
  pub random_nonce : ℕ → Exec W String
  pub new_gcm : String → Result Aead
  pub bcrypt : Bcrypt W
  pub hmac : String → String → String
  pub decode_hex : String → Option String
  pub unmarshal_payload : String → Payload
  pub marshal_completion : CompletionPayload → Result String
  pub json : Json
  pub host : Host W
  pub spawn : Exec W (Unit {0}) → State W (Unit {0})
  pub spell : ℤ → String
  pub temp_dir : String
  pub sweeper : Sweeper W
  pub inspect_network : String → Exec W (Unit {0})
  pub post : String → String → Exec W HttpResponse
  pub pause : ℕ → Exec W (Unit {0})
  pub send : Outgoing → Exec W Incoming
  pub get : String → String → Exec W Incoming
  pub decode_token : String → Result TokenBody
  pub decode_user : String → Result GhUser
  pub decode_repositories : String → Result (List Repository)
  pub transport : ℤ → ℤ → String → Result T
  pub token : T → Exec W String
  pub seen : W → Seen
  pub with_seen : Seen → W → W
