-- ===== src/Adapter/Resolver/Sound.antt =====
-- Who a bearer key stands for, over any keys repository that keeps its contract.
use Prim.Native.String.{len, slice}
use mathlib.Core.List.{Memᴰ}
use agentic_delegator.Prelude.{
  String, true, false, ◌≡◌, ◌⊎◌, inl, inr, List, [], ◌∷◌, Option, some, ltb, All, Bool-cases, arith,
}
use agentic_delegator.Domain.Errors.{opaque}
use agentic_delegator.Domain.ApiKey.{ApiKey}
use agentic_delegator.Ports.Keys.{KeysReads}
use agentic_delegator.Exec.{ok, err}
use agentic_delegator.Adapter.Resolver.{Resolver, first_match, resolve_bearer}

module _ {W R : Type 0} (r : Resolver W R) (rows : W → String → Option ApiKey)
    (reads : KeysReads r.keys rows) where
  open reads use {get_by_prefix_lem}

  abbrev pub Vouches : W → String → ApiKey → Type 0
  Vouches w plain k =
      (rows w k.id ≡ some k) × (k.prefix ≡ slice plain 0 8) × (r.bcrypt.matches k.hash plain ≡ true)

  first_match_sound :
      (plain uid : String) (w v : W) (ks : List ApiKey)
      → All (λ k. (rows w k.id ≡ some k) × (k.prefix ≡ slice plain 0 8)) ks
      → (first_match r plain ks v).0 ≡ ok uid
      → (k : ApiKey) × Vouches w plain k × (k.user_id ≡ uid)
  unfolding first_match
  first_match_sound plain uid w v [] hs h = absurd (ground arith)
  first_match_sound plain uid w v (k ∷ ks) hs h =
      elim (Bool-cases (r.bcrypt.matches k.hash plain)) [
        | inl good ↦ (k, (hs.0.0, hs.0.1, good), ground arith)
        | inr bad ↦ first_match_sound plain uid w v ks hs.1 (rw bad at h)
      ]

  first_match_complete :
      (plain : String) (v : W) (ks : List ApiKey) (k : ApiKey)
      → Memᴰ k ks
      → r.bcrypt.matches k.hash plain ≡ true
      → (uid : String) × ((first_match r plain ks v).0 ≡ ok uid)
  unfolding first_match
  first_match_complete plain v [] k m good = elim m [ ]
  first_match_complete plain v (j ∷ ks) k (Memᴰ.head e) good = (k.user_id, ground arith)
  first_match_complete plain v (j ∷ ks) k (Memᴰ.tail m) good =
      elim (Bool-cases (r.bcrypt.matches j.hash plain)) [
        | inl first ↦ (j.user_id, ground arith)
        | inr later ↦
            let (uid, found) = first_match_complete plain v ks k m good in (uid, ground arith)
      ]

  -- A bearer text resolves only to the owner of a stored key that has its first eight bytes for a
  -- prefix and whose hash it matches.
  pub resolve_bearer_sound :
      (plain uid : String) (w : W)
      → (resolve_bearer r plain w).0 ≡ ok uid
      → (k : ApiKey) × Vouches w plain k × (k.user_id ≡ uid)
  unfolding resolve_bearer
  resolve_bearer_sound plain uid w h = elim (Bool-cases (ltb (len plain) 8)) [
    | inl short ↦ absurd (ground arith)
    | inr enough ↦ elim (get_by_prefix_lem (slice plain 0 8) w) [
      | inr (m, broken) ↦ absurd (ground arith)
      | inl (ks, listed, sound, complete) ↦ first_match_sound plain uid w w ks sound (ground arith)
    ]
  ]

  pub resolve_bearer_complete :
      (plain : String) (w : W) (k : ApiKey)
      → ltb (len plain) 8 ≡ false
      → Vouches w plain k
      → ((uid : String) × ((resolve_bearer r plain w).0 ≡ ok uid))
        ⊎ ((m : String) × (resolve_bearer r plain w ≡ (err (opaque m), w)))
  unfolding resolve_bearer
  resolve_bearer_complete plain w k enough (there, at, good) =
      elim (get_by_prefix_lem (slice plain 0 8) w) [
        | inr (m, broken) ↦ inr (m, ground arith)
        | inl (ks, listed, sound, complete) ↦
            let (uid, found) = first_match_complete plain w ks k (complete k.id k there at) good in
            inl (uid, ground arith)
      ]
