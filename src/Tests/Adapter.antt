-- ===== src/Tests/Adapter.antt =====
-- Encryption, keys, webhooks and the HTTP handlers over small worlds.
use Prim.Native.String.{len}
use text.Mathlib.TextPositions.{len-append}
use agentic_delegator.Prelude.{
  Option, string_eq, ℕ, zero, suc, String, true, false, ◌≡◌, refl, ◌⊎◌, List, [], ◌∷◌, none, some,
  leb, arith, eq_refl,
}
use agentic_delegator.Prelude.Text.{◌==◌, ◌<>◌}
use agentic_delegator.Domain.Errors.{opaque}
use agentic_delegator.Domain.ApiKey.{ApiKey, new_api_key}
use agentic_delegator.Domain.Credentials.{AnthropicCreds}
use agentic_delegator.Domain.Job.{Job, cancelled, is_terminal}
use agentic_delegator.Exec.{Exec, ok, err}
use agentic_delegator.Go.Map
use agentic_delegator.Ports.Jobs.{put}
use agentic_delegator.Ports.Keys.{KeysReads}
use agentic_delegator.Prelude.Int.{ℤ, pos}
use agentic_delegator.Ports.Small.{IdGenerator, Clock}
use agentic_delegator.Testutil.FakeKeys
use agentic_delegator.Testutil.FakeKeys.{
  FakeApiKeysRepo, FakeSecretsRepo, fake_api_keys, fake_secrets, key_rows, secret_of,
  fake_api_keys-KeysContract, fake_secrets-SecretsContract,
}
use agentic_delegator.Testutil.FakeSmall
use agentic_delegator.Testutil.FakeRunner
use agentic_delegator.Testutil.World.Wired
use agentic_delegator.Testutil.World.Wired.{World, jobs-JobsContract}
use agentic_delegator.Usecase.Settings.{MintApiKey, MintApiKeyInput, MintApiKeyOutput, mint}
use agentic_delegator.Adapter.Crypto.{Aead, IsAuthentic, encrypt}
use agentic_delegator.Adapter.Secrets.{
  EncryptingSecrets, encrypting_secrets, anthropic_provider, set_anthropic_creds, for_user-set,
}
use agentic_delegator.Adapter.Keyhash.{Bcrypt}
use agentic_delegator.Adapter.Keyhash
use agentic_delegator.Adapter.Resolver.{Resolver, resolve_bearer, first_match}
use agentic_delegator.Adapter.Resolver.Sound.{Vouches, resolve_bearer_sound}
use agentic_delegator.Adapter.Resolver.Minted.{
  wire_resolver, wire_mint, keyhash_repo-KeysReads, mint_resolves,
}
use agentic_delegator.Adapter.Ghapp.Webhooks.{WebhookHandler, Memory, Request, verify, handle}
use agentic_delegator.Adapter.Ghapp.Webhooks.Replay.{run, handle_once}
use agentic_delegator.Adapter.Webhook.{dispatch}
use agentic_delegator.Adapter.Webhook.Attempts.{scripted, accepts, dispatch_attempts}
use agentic_delegator.Adapter.Http.Jobs.{JobsHandler, cancel_job}
use agentic_delegator.Adapter.Http.Jobs.Cancel.{cancel_job_status}
use agentic_delegator.Tests.Domain.{fresh}
use agentic_delegator.Tests.Usecase.{holding}

-- A cipher that hides nothing, and random bytes that are all zeros.
abbrev cipher : Aead
cipher = record { nonce_size = 2; seal = λ n p. p; unseal = λ n s. ok s }

cipher-IsAuthentic : IsAuthentic cipher
cipher-IsAuthentic = record { unseal-seal = λ n p. refl }

abbrev zeros : ℕ → String
zeros zero = ""
zeros (suc n) = "0" <> zeros n

len-zeros : (n : ℕ) → len (zeros n) ≡ n
len-zeros zero = refl
len-zeros (suc n) = ground (arith, len-append "0" (zeros n), len-zeros n)

abbrev random : {W : Type 0} → ℕ → Exec W String
random n w = (ok (zeros n), w)

random_fills :
    {W : Type 0} (n : ℕ) (v : W) (nonce : String) → (random n v).0 ≡ ok nonce → len nonce ≡ n
random_fills n v nonce h = ground (arith, len-zeros n)

abbrev wrapper : EncryptingSecrets FakeSecretsRepo
wrapper = record { inner = fake_secrets; aes = cipher; random = random }

abbrev creds : AnthropicCreds
creds = record { api_key = "sk-ant" }

for_user-set_example :
    let w' = (set_anthropic_creds wrapper "u_1" creds []).1 in
    (nonce : String) × (secret_of w' "u_1" ≡ some (record { api_key = nonce <> "sk-ant" }))
    × (((anthropic_provider (encrypting_secrets wrapper)).for_user "u_1" w' ≡ (ok creds, w'))
        ⊎ ((m : String) × ((anthropic_provider (encrypting_secrets wrapper)).for_user "u_1" w'
              ≡ (err (opaque m), w'))))
unfolding set_anthropic_creds encrypt FakeKeys.set_creds
for_user-set_example =
    for_user-set wrapper secret_of fake_secrets-SecretsContract cipher-IsAuthentic random_fills
      "u_1" creds [] refl

abbrev hashing : Bcrypt FakeApiKeysRepo
hashing = record { generate = λ p w. (ok ("h:" <> p), w); matches = λ d p. d == ("h:" <> p) }

hashing_matches :
    (p d : String) (w : FakeApiKeysRepo)
    → (hashing.generate p w).0 ≡ ok d
    → hashing.matches d p ≡ true
hashing_matches p d w h = ground (arith, eq_refl ("h:" <> p))

-- A request is its authorization header.
abbrev resolver : Resolver FakeApiKeysRepo String
resolver =
    wire_resolver hashing fake_api_keys (λ r. r) (λ r w. (err (opaque "no cookie"), w))
      (λ w. (50, w))

abbrev reading : KeysReads resolver.keys key_rows
reading = keyhash_repo-KeysReads hashing fake_api_keys key_rows fake_api_keys-KeysContract

abbrev key : ApiKey
key = new_api_key "k_1" "u_1" "laptop" "agdkey_t" "h:agdkey_test" 10

resolve_bearer_sound_example :
    (k : ApiKey) × Vouches resolver key_rows reading (key ∷ []) "agdkey_test" k
    × (k.user_id ≡ "u_1")
unfolding resolve_bearer first_match FakeKeys.get_by_prefix Map.values new_api_key
resolve_bearer_sound_example =
    resolve_bearer_sound resolver key_rows reading "agdkey_test" "u_1" (key ∷ []) refl

abbrev one_id : IdGenerator FakeApiKeysRepo
one_id = record {
  new_job_id = λ w. ("j_1", w);
  new_api_key_id = λ w. ("k_1", w);
  new_user_id = λ w. ("u_1", w);
  new_api_key_plaintext = λ w. (("agdkey_test", "agdkey_t"), w);
}

abbrev fixed_clock : Clock FakeApiKeysRepo
fixed_clock = record { now = λ w. (10, w) }

abbrev minter : MintApiKey FakeApiKeysRepo
minter = wire_mint hashing fake_api_keys one_id fixed_clock

abbrev laptop : MintApiKeyInput
laptop = record { user_id = "u_1"; name = "laptop" }

abbrev minted : MintApiKeyOutput
minted = record {
  key = new_api_key "k_1" "u_1" "laptop" "agdkey_t" "agdkey_test" 10;
  plaintext = "agdkey_test";
}

mint_resolves_example :
    ((resolve_bearer resolver "agdkey_test" (mint minter laptop []).1).0 ≡ ok "u_1")
    ⊎ ((m : String) × (resolve_bearer resolver "agdkey_test" (mint minter laptop []).1
          ≡ (err (opaque m), (mint minter laptop []).1)))
unfolding mint Keyhash.create FakeKeys.create Map.insert Map.lookup new_api_key
mint_resolves_example =
    mint_resolves hashing fake_api_keys key_rows fake_api_keys-KeysContract hashing_matches one_id
      (λ w. (refl, refl)) fixed_clock (λ r. r) (λ r w. (err (opaque "no cookie"), w)) (λ w. (50, w))
      laptop [] minted refl (λ k v. ground (arith, v.0))

abbrev hooks : WebhookHandler (List ℤ)
hooks = record {
  decode_hex = λ s. some s;
  mac = λ body. body;
  unmarshal = λ body. record { action = "deleted"; installation_id = pos 7 };
  delete_installation = λ n w. (ok tt, n ∷ w);
}

abbrev delivered : Request
delivered = record {
  signature = "sha256=x";
  delivery = "d_1";
  event = "installation";
  body = ok "x";
}

abbrev memory : Memory (List ℤ)
memory = record { seen = λ k. none; world = [] }

handle_once_example :
    let later =
      run hooks
        ((record delivered { delivery = "d_2" }, 5) ∷ [])
        (handle hooks delivered 3 memory).1 in
    (handle hooks delivered 9 later).1.world ≡ later.world
unfolding verify
handle_once_example =
    handle_once hooks delivered delivered "x" 3 9 ((record delivered { delivery = "d_2" }, 5) ∷ [])
      memory refl refl refl refl refl (refl, tt) refl

-- The first request ends in an error of the transport, the second is answered with 500.
abbrev script : ℕ → Option ℕ
script zero = none
script (suc zero) = some 500
script (suc (suc n)) = some 204

abbrev reason : ℕ → String
reason n = "unreachable"

dispatch_attempts_example :
    let r =
      dispatch (scripted script reason 10) "http://x" "{}" (record { sent = 0; waited = 0 }) in
    (accepts r.0 ≡ true) × (r.1 ≡ record { sent = 3; waited = 30 })
dispatch_attempts_example = dispatch_attempts script reason 10 "http://x" "{}"

abbrev api : JobsHandler World (Unit {0})
api = record { enqueue = Wired.enqueue; get = Wired.get; list = Wired.list; cancel = Wired.cancel }

cancel_job_status_example :
    (((cancel_job api "u_1" "j_1" (holding fresh)).0.code ≡ 204)
      × (job : Job) × (now : ℕ) × (Wired.rows (holding fresh) "j_1" ≡ some job)
      × (job.user_id ≡ "u_1")
      × (is_terminal job ≡ false)
      × (Wired.rows (cancel_job api "u_1" "j_1" (holding fresh)).1
          ≡ put
              (record job { status = cancelled; finished_at = some now })
              (Wired.rows (holding fresh))))
    ⊎ ((leb 400 (cancel_job api "u_1" "j_1" (holding fresh)).0.code ≡ true)
        × (Wired.rows (cancel_job api "u_1" "j_1" (holding fresh)).1 ≡ Wired.rows (holding fresh)))
unfolding FakeRunner.stop FakeSmall.now
cancel_job_status_example =
    cancel_job_status api Wired.rows jobs-JobsContract (λ c w. refl) (λ w. refl) "u_1" "j_1"
      (holding fresh)
