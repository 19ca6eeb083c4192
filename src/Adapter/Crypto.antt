-- ===== src/Adapter/Crypto.antt =====
-- core/adapter/crypto/aesgcm.go. A Go byte slice is a text of its bytes. AES-GCM itself, and the
-- system's randomness, are parameters.
use Prim.Native.String.{len, slice}
use text.Mathlib.TextPositions.{len-append, slice-append_left, slice-append_right}
use agentic_delegator.Prelude.{
  ℕ, String, ◌≡◌, ◌∙◌, ◌&&◌, not, inl, inr, arith, ltb, eqb, if◌then◌else◌,
}
use agentic_delegator.Prelude.Text.{◌<>◌}
use agentic_delegator.Domain.Errors.{opaque}
use agentic_delegator.Exec.{Exec, Result, ok, err, pure, ◌>>=◌, Result-cases}

-- cipher.AEAD: its nonce size, `Seal` and `Open`
pub record Aead : Type 0 where
  pub nonce_size : ℕ
  pub seal : String → String → String
  pub unseal : String → String → Result String

-- An opened seal is what was sealed under the same nonce.
pub record IsAuthentic (c : Aead) : Type 0 where
  pub unseal-seal :
      (nonce plaintext : String) → c.unseal nonce (c.seal nonce plaintext) ≡ ok plaintext

-- The guard of NewAESGCM; aes.NewCipher and cipher.NewGCM, which follow, are the parameter.
unfoldable pub new_aes_gcm : (String → Result Aead) → String → Result Aead
new_aes_gcm new_gcm key =
    let l = len key in
    if not (eqb l 16) && (not (eqb l 24) && not (eqb l 32))
    then err (opaque "aesgcm: invalid key length (want 16, 24, or 32)")
    else new_gcm key

-- `random` is io.ReadFull on rand.Reader
unfoldable pub encrypt : {W : Type 0} → Aead → (ℕ → Exec W String) → String → Exec W String
encrypt c random plaintext = do nonce ← random c.nonce_size; pure (nonce <> c.seal nonce plaintext)

unfoldable pub decrypt : Aead → String → Result String
decrypt c ciphertext =
    if ltb (len ciphertext) c.nonce_size
    then err (opaque "aesgcm: ciphertext too short")
    else c.unseal (slice ciphertext 0 c.nonce_size) (slice ciphertext c.nonce_size (len ciphertext))

decrypt-append :
    (c : Aead) (nonce sealed : String)
    → len nonce ≡ c.nonce_size
    → decrypt c (nonce <> sealed) ≡ c.unseal nonce sealed
unfolding decrypt
decrypt-append c nonce sealed size =
    rw
      (
        ← size,
        slice-append_left nonce sealed,
        len-append nonce sealed,
        slice-append_right nonce sealed,
      )
      (ground arith)

-- Where the random source fills the nonce, what `Encrypt` returns is what `Decrypt` takes back to
-- the plaintext; a ciphertext shorter than a nonce is refused.
pub decrypt-encrypt :
    {W : Type 0} (c : Aead) (random : ℕ → Exec W String) (plaintext ciphertext : String) (w : W)
    → IsAuthentic c
    → ((n : ℕ) (v : W) (nonce : String) → (random n v).0 ≡ ok nonce → len nonce ≡ n)
    → (encrypt c random plaintext w).0 ≡ ok ciphertext
    → decrypt c ciphertext ≡ ok plaintext
unfolding encrypt
decrypt-encrypt c random plaintext ciphertext w authentic fills done =
    elim (Result-cases (random c.nonce_size w).0) [
      | inr (e, broken) ↦ absurd (ground arith)
      | inl (nonce, drawn) ↦
          let made : ciphertext ≡ nonce <> c.seal nonce plaintext = ground arith in
          rw made (
            decrypt-append c nonce (c.seal nonce plaintext) (fills c.nonce_size w nonce drawn)
            ∙ authentic.unseal-seal nonce plaintext)
    ]
