-- ===== src/Testutil/FakeSmall.antt =====
-- core/testutil/fake_clock.go, fake_id_generator.go, fake_repo_creds_provider.go,
-- fake_anthropic_creds_provider.go and fake_webhook_dispatcher.go
use Prim.Native.String.{slice}
use agentic_delegator.Prelude.{ℕ, ◌+◌, String, Option, none, some, List, [], ◌∷◌, ◌++◌}
use agentic_delegator.Prelude.Text.{◌<>◌}
use agentic_delegator.Domain.Errors.{Error}
use agentic_delegator.Domain.Credentials.{GitCreds, AnthropicCreds}
use agentic_delegator.Ports.Small.{
  Clock, IdGenerator, RepoCredentialsProvider, AnthropicCredentialsProvider, WebhookDispatcher,
}
use agentic_delegator.Go.Decimal.{decimal, padded}
use agentic_delegator.Exec.{Exec, State, pure, raise}

-- The clock is its time.
unfoldable pub now : State ℕ ℕ
now c = (c, c)

unfoldable pub advance : ℕ → ℕ → ℕ
advance d c = c + d

unfoldable pub set_time : ℕ → ℕ → ℕ
set_time t c = t

abbrev pub fake_clock : Clock ℕ
fake_clock = record { now = now }

-- The counters are uint64; they count calls and are not modelled as wrapping.
pub record FakeIdGenerator : Type 0 where
  pub job_counter : ℕ
  pub key_counter : ℕ
  pub user_counter : ℕ

unfoldable pub new_job_id : State FakeIdGenerator String
new_job_id g = ("j_" <> decimal (g.job_counter + 1), record g { job_counter = g.job_counter + 1 })

unfoldable pub new_api_key_id : State FakeIdGenerator String
new_api_key_id g =
    ("k_" <> decimal (g.key_counter + 1), record g { key_counter = g.key_counter + 1 })

unfoldable pub new_user_id : State FakeIdGenerator String
new_user_id g =
    ("u_" <> decimal (g.user_counter + 1), record g { user_counter = g.user_counter + 1 })

unfoldable pub new_api_key_plaintext : State FakeIdGenerator (String × String)
new_api_key_plaintext g =
    let plain = "agdkey_test_" <> padded 16 (g.key_counter + 1) in
    ((plain, slice plain 0 8), record g { key_counter = g.key_counter + 1 })

abbrev pub fake_ids : IdGenerator FakeIdGenerator
fake_ids = record {
  new_job_id = new_job_id;
  new_api_key_id = new_api_key_id;
  new_user_id = new_user_id;
  new_api_key_plaintext = new_api_key_plaintext;
}

-- A provider answers with its error if it has one, and with its credentials otherwise.
pub record FakeProvider (A : Type 0) : Type 0 where
  pub creds : A
  pub failure : Option Error

answer : {A : Type 0} → Option Error → A → Exec (FakeProvider A) A
answer (some e) c = raise e
answer none c = pure c

unfoldable pub git_creds_for : String → String → Exec (FakeProvider GitCreds) GitCreds
unfolding answer
git_creds_for user repo p = answer p.failure p.creds p

unfoldable pub anthropic_creds_for : String → Exec (FakeProvider AnthropicCreds) AnthropicCreds
unfolding answer
anthropic_creds_for user p = answer p.failure p.creds p

abbrev pub fake_repo_creds : RepoCredentialsProvider (FakeProvider GitCreds)
fake_repo_creds = record { for_repo = git_creds_for }

abbrev pub fake_anthropic_creds : AnthropicCredentialsProvider (FakeProvider AnthropicCreds)
fake_anthropic_creds = record { for_user = anthropic_creds_for }

-- The calls, with address and payload.
pub record FakeWebhookDispatcher : Type 0 where
  pub failure : Option Error
  pub calls : List (String × String)

dispatch_in : Option Error → String → String → Exec FakeWebhookDispatcher (Unit {0})
dispatch_in (some e) url payload d = raise e d
dispatch_in none url payload d = pure tt (record d { calls = d.calls ++ (url, payload) ∷ [] })

unfoldable pub dispatch : String → String → Exec FakeWebhookDispatcher (Unit {0})
unfolding dispatch_in
dispatch url payload d = dispatch_in d.failure url payload d

abbrev pub fake_dispatcher : WebhookDispatcher FakeWebhookDispatcher
fake_dispatcher = record { dispatch = dispatch }
