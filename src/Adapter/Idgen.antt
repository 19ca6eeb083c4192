-- ===== src/Adapter/Idgen.antt =====
-- core/adapter/idgen/nanoid.go and core/adapter/clock/system_clock.go. The random source and the
-- machine's clock are parameters; where the source fails the program ends, so that it always gives
-- bytes.
use Prim.Native.String.{len, slice}
use text.Mathlib.TextPositions.{len-append}
use agentic_delegator.Prelude.{ℕ, ◌+◌, ◌*◌, ◌/◌, String, false, ◌≡◌, refl, List, length, ltb, arith}
use agentic_delegator.Prelude.Text.{◌<>◌}
use agentic_delegator.Go.Base32.{encode, len-encode}
use agentic_delegator.Exec.{State}
use agentic_delegator.Ports.Small.{Clock, IdGenerator}

module _ {W : Type 0} (random : ℕ → State W (List ℕ)) where
  unfoldable pub rand_base32 : ℕ → State W String
  rand_base32 n w = let (b, w') = random n w in (encode b, w')

  abbrev pub with_prefix : String → State W String
  with_prefix prefix w = let (s, w') = rand_base32 9 w in (prefix <> s, w')

  unfoldable pub new_api_key_plaintext : State W (String × String)
  new_api_key_plaintext w =
      let (s, w') = rand_base32 24 w in let plain = "agdkey_" <> s in ((plain, slice plain 0 8), w')

  abbrev pub nano_id : IdGenerator W
  nano_id = record {
    new_job_id = with_prefix "j_";
    new_api_key_id = with_prefix "k_";
    new_user_id = with_prefix "u_";
    new_api_key_plaintext = new_api_key_plaintext;
  }

  module _ (fills : (n : ℕ) (w : W) → length (random n w).0 ≡ n) where
    len-rand_base32 : (n : ℕ) (w : W) → len (rand_base32 n w).0 ≡ (8 * n + 4) / 5
    unfolding rand_base32
    len-rand_base32 n w = omega (arith, len-encode (random n w).0, fills n w)

    -- Given a random source that fills its bytes: the IDs of jobs, keys and users have 17
    -- characters; the plaintext of a key has 46, so that it is long enough to be looked up, and the
    -- prefix beside it is its first eight.
    pub nano_id-sizes :
        (w : W)
        → (len (nano_id.new_job_id w).0 ≡ 17)
          × (len (nano_id.new_api_key_id w).0 ≡ 17)
          × (len (nano_id.new_user_id w).0 ≡ 17)
          × (len (nano_id.new_api_key_plaintext w).0.0 ≡ 46)
          × ((nano_id.new_api_key_plaintext w).0.1
              ≡ slice (nano_id.new_api_key_plaintext w).0.0 0 8)
    unfolding new_api_key_plaintext
    nano_id-sizes w =
        let s = (rand_base32 9 w).0 in
        let long = (rand_base32 24 w).0 in
        (
          omega (arith, len-append "j_" s, len-rand_base32 9 w),
          omega (arith, len-append "k_" s, len-rand_base32 9 w),
          omega (arith, len-append "u_" s, len-rand_base32 9 w),
          omega (arith, len-append "agdkey_" long, len-rand_base32 24 w),
          refl,
        )

    -- What the resolver and MintAPIKey need of the generator.
    pub nano_id-prefixed :
        (w : W)
        → let g = (nano_id.new_api_key_plaintext w).0 in
          (g.1 ≡ slice g.0 0 8) × (ltb (len g.0) 8 ≡ false)
    nano_id-prefixed w =
        let (job, key, user, size, prefix) = nano_id-sizes w in (prefix, rw size refl)

-- clock.System
abbrev pub system_clock : {W : Type 0} → State W ℕ → Clock W
system_clock now = record { now = now }
