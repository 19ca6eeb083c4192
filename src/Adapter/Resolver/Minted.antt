-- ===== src/Adapter/Resolver/Minted.antt =====
-- A key from its minting to a request that carries it, wired as in cmd/agentic-delegator/main.go.
use Prim.Native.String.{len, slice}
use agentic_delegator.Prelude.{
  ℕ, String, true, false, ◌≡◌, refl, sym, ap, ◌∙◌, ◌⊎◌, inl, inr, ◌||◌, Option, ltb, Bool-cases,
  arith, eq_refl,
}
use agentic_delegator.Prelude.Text.{is_empty}
use agentic_delegator.Domain.Errors.{opaque}
use agentic_delegator.Domain.ApiKey.{ApiKey, new_api_key}
use agentic_delegator.Ports.Keys.{ApiKeysRepository, KeysReads, KeysContract}
use agentic_delegator.Ports.Small.{Clock, IdGenerator}
use agentic_delegator.Exec.{Exec, State, ok, err, Result-cases}
use agentic_delegator.Adapter.Keyhash.{Bcrypt, keyhash_repo, create}
use agentic_delegator.Adapter.Resolver.{Resolver, resolve_bearer}
use agentic_delegator.Adapter.Resolver.Sound.{
  Vouches, resolve_bearer_sound, resolve_bearer_complete,
}
use agentic_delegator.Usecase.Settings.{MintApiKey, MintApiKeyInput, MintApiKeyOutput, mint}

-- apiKeys, resolver and mint of runServe
module _ {W : Type 0} (bcrypt : Bcrypt W) (inner : ApiKeysRepository W) where
  abbrev pub wire_resolver :
      {R : Type 0} → (R → String) → (R → Exec W String) → State W ℕ → Resolver W R
  wire_resolver authorization sessions now = record {
    authorization = authorization;
    sessions = sessions;
    keys = keyhash_repo bcrypt inner;
    now = now;
    bcrypt = bcrypt;
  }

  abbrev pub wire_mint : IdGenerator W → Clock W → MintApiKey W
  wire_mint id_gen clock = record {
    keys = keyhash_repo bcrypt inner;
    id_gen = id_gen;
    clock = clock;
  }

pub keyhash_repo-KeysReads :
    {W : Type 0} (bcrypt : Bcrypt W) (inner : ApiKeysRepository W)
    (rows : W → String → Option ApiKey)
    → KeysContract inner rows
    → KeysReads (keyhash_repo bcrypt inner) rows
keyhash_repo-KeysReads bcrypt inner rows contract = record {
  get_by_prefix_lem = contract.reads.get_by_prefix_lem;
}

module _ {W R : Type 0} (bcrypt : Bcrypt W) (inner : ApiKeysRepository W)
    (rows : W → String → Option ApiKey) (contract : KeysContract inner rows)
    (hash_matches : (p d : String) (w : W)
      → (bcrypt.generate p w).0 ≡ ok d
      → bcrypt.matches d p ≡ true)
    (id_gen : IdGenerator W)
    (prefixed : (w : W)
      → let g = (id_gen.new_api_key_plaintext w).0 in
        (g.1 ≡ slice g.0 0 8) × (ltb (len g.0) 8 ≡ false))
    (clock : Clock W) (authorization : R → String) (sessions : R → Exec W String)
    (now : State W ℕ) where
  abbrev pub reads : KeysReads (keyhash_repo bcrypt inner) rows
  reads = keyhash_repo-KeysReads bcrypt inner rows contract

  abbrev r : Resolver W R
  r = wire_resolver bcrypt inner authorization sessions now

  abbrev uc : MintApiKey W
  uc = wire_mint bcrypt inner id_gen clock

  -- After a successful minting the key's row vouches for its plaintext, in its hashed form.
  minted-Vouches :
      (input : MintApiKeyInput) (w : W) (out : MintApiKeyOutput)
      → (mint uc input w).0 ≡ ok out
      → (k : ApiKey) × Vouches r rows reads (mint uc input w).1 out.plaintext k
        × (k.user_id ≡ input.user_id)
        × (ltb (len out.plaintext) 8 ≡ false)
  unfolding mint create new_api_key
  minted-Vouches input w out done =
      elim (Bool-cases (is_empty input.user_id || is_empty input.name)) [
        | inl bad ↦ absurd (ground arith)
        | inr good ↦
            let g : String × String = (id_gen.new_api_key_plaintext w).0 in
            let w1 : W = (id_gen.new_api_key_plaintext w).1 in
            let id : String = (id_gen.new_api_key_id w1).0 in
            let w2 : W = (id_gen.new_api_key_id w1).1 in
            let t : ℕ = (clock.now w2).0 in
            let w3 : W = (clock.now w2).1 in
            let w4 : W = (bcrypt.generate g.0 w3).1 in
            elim (Result-cases (bcrypt.generate g.0 w3).0) [
              | inr (e, broken) ↦ absurd (ground arith)
              | inl (digest, hashed) ↦
                  let k : ApiKey = new_api_key id input.user_id input.name g.1 digest t in
                  elim (contract.create_lem k w4) [
                    | inr (e, broken) ↦ absurd (ground arith)
                    | inl (fine, written) ↦
                        let ends : (mint uc input w).1 ≡ (inner.create k w4).1 = ground arith in
                        let plain : out.plaintext ≡ g.0 = ground arith in
                        (
                          k,
                          (
                            ap (λ (v : W). rows v id) ends
                                ∙ ap (λ (f : String → Option ApiKey). f id) written
                                ∙ rw (eq_refl id) refl,
                            rw plain (prefixed w).0,
                            rw plain (hash_matches g.0 digest w3 hashed),
                          ),
                          refl,
                          rw plain (prefixed w).1,
                        )
                  ]
            ]
      ]

  -- Given that bcrypt's hashes match what they are made of, that the generator's prefix is the
  -- first eight bytes of its plaintext, and that no other user's stored key matches the plaintext:
  -- the plaintext that a successful minting returns resolves, right after it, to the user that it
  -- was minted for, or the store fails.
  pub mint_resolves :
      (input : MintApiKeyInput) (w : W) (out : MintApiKeyOutput)
      → (mint uc input w).0 ≡ ok out
      → ((k : ApiKey)
          → Vouches r rows reads (mint uc input w).1 out.plaintext k
          → k.user_id ≡ input.user_id)
      → ((resolve_bearer r out.plaintext (mint uc input w).1).0 ≡ ok input.user_id)
        ⊎ ((m : String) × (resolve_bearer r out.plaintext (mint uc input w).1
              ≡ (err (opaque m), (mint uc input w).1)))
  mint_resolves input w out done sole =
      let w' : W = (mint uc input w).1 in
      let (k, vouches, mine, enough) = minted-Vouches input w out done in
      elim (resolve_bearer_complete r rows reads out.plaintext w' k enough vouches) [
        | inr (m, broken) ↦ inr (m, broken)
        | inl (uid, found) ↦
            let (j, also, owner) = resolve_bearer_sound r rows reads out.plaintext uid w' found in
            inl (found ∙ ap ok (sym owner ∙ sole j also))
      ]
