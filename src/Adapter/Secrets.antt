-- ===== src/Adapter/Secrets.antt =====
-- encryptingSecrets of cmd/agentic-delegator/main.go, which wraps a secrets repository with
-- AES-GCM, and core/adapter/credentials/anthropic.go, which reads from it.
use Prim.Native.String.{len}
use agentic_delegator.Prelude.{
  ℕ, String, ◌≡◌, refl, ap, ◌∙◌, ◌⊎◌, inl, inr, Option, some, arith, eq_refl,
}
use agentic_delegator.Prelude.Text.{◌<>◌}
use agentic_delegator.Domain.Errors.{opaque}
use agentic_delegator.Domain.Credentials.{AnthropicCreds}
use agentic_delegator.Ports.Secrets.{SecretsRepository, SecretsContract}
use agentic_delegator.Ports.Small.{AnthropicCredentialsProvider}
use agentic_delegator.Exec.{Exec, ok, err, pure, lift, ◌>>=◌, Result-cases}
use agentic_delegator.Adapter.Crypto.{Aead, IsAuthentic, encrypt, decrypt, decrypt-encrypt}

-- `inner`, `aes`, and the randomness that `aes` draws on.
pub record EncryptingSecrets (W : Type 0) : Type 0 where
  pub inner : SecretsRepository W
  pub aes : Aead
  pub random : ℕ → Exec W String

module _ {W : Type 0} (e : EncryptingSecrets W) where
  unfoldable pub set_anthropic_creds : String → AnthropicCreds → Exec W (Unit {0})
  set_anthropic_creds user c = do
    ct ← encrypt e.aes e.random c.api_key
    e.inner.set_anthropic_creds user (record { api_key = ct })

  unfoldable pub get_anthropic_creds : String → Exec W AnthropicCreds
  get_anthropic_creds user = do
    c ← e.inner.get_anthropic_creds user
    pt ← lift (decrypt e.aes c.api_key)
    pure (record { api_key = pt })

  unfoldable pub delete_anthropic_creds : String → Exec W (Unit {0})
  delete_anthropic_creds user = e.inner.delete_anthropic_creds user

  abbrev pub encrypting_secrets : SecretsRepository W
  encrypting_secrets = record {
    set_anthropic_creds = set_anthropic_creds;
    get_anthropic_creds = get_anthropic_creds;
    delete_anthropic_creds = delete_anthropic_creds;
  }

-- NewAnthropicCredsProvider
unfoldable pub anthropic_provider :
    {W : Type 0} → SecretsRepository W → AnthropicCredentialsProvider W
anthropic_provider secrets = record { for_user = secrets.get_anthropic_creds }

module _ {W : Type 0} (e : EncryptingSecrets W) (secret : W → String → Option AnthropicCreds)
    (contract : SecretsContract e.inner secret) (authentic : IsAuthentic e.aes)
    (fills : (n : ℕ) (v : W) (nonce : String) → (e.random n v).0 ≡ ok nonce → len nonce ≡ n) where
  open contract use {set_lem, get_lem}

  -- Given authentic encryption and a random source that fills its nonces, the credential that a
  -- successful write through the wrapper stored for a user is what the runner's provider reads for
  -- that user right after it, or the store fails; what lies in the store is a nonce followed by the
  -- sealed key.
  pub for_user-set :
      (user : String) (c : AnthropicCreds) (w : W)
      → (set_anthropic_creds e user c w).0 ≡ ok tt
      → let w' = (set_anthropic_creds e user c w).1 in
        (nonce : String) × (secret w' user
          ≡ some (record { api_key = nonce <> e.aes.seal nonce c.api_key }))
        × (((anthropic_provider (encrypting_secrets e)).for_user user w' ≡ (ok c, w'))
            ⊎ ((m : String) × ((anthropic_provider (encrypting_secrets e)).for_user user w'
                  ≡ (err (opaque m), w'))))
  unfolding set_anthropic_creds get_anthropic_creds anthropic_provider encrypt
  for_user-set user c w done = elim (Result-cases (e.random e.aes.nonce_size w).0) [
    | inr (x, broken) ↦ absurd (ground arith)
    | inl (nonce, drawn) ↦
        let v : W = (e.random e.aes.nonce_size w).1 in
        let ct : String = nonce <> e.aes.seal nonce c.api_key in
        let kept : AnthropicCreds = record { api_key = ct } in
        let w' : W = (e.inner.set_anthropic_creds user kept v).1 in
        let ends : (set_anthropic_creds e user c w).1 ≡ w' = ground arith in
        let back : decrypt e.aes ct ≡ ok c.api_key =
          decrypt-encrypt e.aes e.random c.api_key ct w authentic fills (ground arith) in
        elim (set_lem user kept v) [
          | inr (x, broken) ↦ absurd (ground arith)
          | inl (fine, written) ↦
              let there : secret w' user ≡ some kept =
                ap (λ (t : String → Option AnthropicCreds). t user) written
                ∙ rw (eq_refl user) refl in
              (
                nonce,
                ap (λ (v : W). secret v user) ends ∙ there,
                rw ends (elim (get_lem user w') [
                  | inl answer ↦ inl (ground arith)
                  | inr (m, broken) ↦ inr (m, ground arith)
                ]),
              )
        ]
  ]
