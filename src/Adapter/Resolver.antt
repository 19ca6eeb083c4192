-- ===== src/Adapter/Resolver.antt =====
-- core/adapter/http/auth/resolver.go: from a request to a user, by API key or by session.
pub mod Sound
pub mod Minted
use Prim.Native.String.{len, slice}
use text.Mathlib.Text.{starts_with}
use agentic_delegator.Prelude.{
  ℕ, String, Bool, true, false, List, [], ◌∷◌, Option, none, some, ltb, if◌then◌else◌,
}
use agentic_delegator.Domain.Errors.{opaque}
use agentic_delegator.Domain.ApiKey.{ApiKey}
use agentic_delegator.Ports.Keys.{ApiKeysRepository}
use agentic_delegator.Exec.{
  Exec, State, Result, ok, err, pure, raise, call, attempt, ignore, ◌>>=◌, ◌>>◌,
}
use agentic_delegator.Adapter.Keyhash.{Bcrypt}

-- `R` is the type of requests. `now` is time.Now, and `sessions` is `UserFromRequest`.
pub record Resolver (W R : Type 0) : Type 0 where
  pub authorization : R → String
  pub sessions : R → Exec W String
  pub keys : ApiKeysRepository W
  pub now : State W ℕ
  pub bcrypt : Bcrypt W

module _ {W R : Type 0} (r : Resolver W R) where
  -- the loop over `candidates`
  unfoldable pub first_match : String → List ApiKey → Exec W String
  first_match plain [] = raise (opaque "no match")
  first_match plain (k ∷ ks) =
      let rest = first_match plain ks in
      if r.bcrypt.matches k.hash plain
      then (do at ← call r.now; ignore (r.keys.record_used k.id at); pure k.user_id)
      else rest

  unfoldable pub resolve_bearer : String → Exec W String
  resolve_bearer plain =
      if ltb (len plain) 8
      then raise (opaque "short")
      else do candidates ← r.keys.get_by_prefix (slice plain 0 8); first_match plain candidates

  -- if err == nil { return uid, nil }
  unfoldable pub or_session : R → Result String → Exec W String
  or_session req (ok uid) = pure uid
  or_session req (err e) = do session ← attempt (r.sessions req); of_session session
    where
      of_session : Result String → Exec W String
      of_session (ok uid) = pure uid
      of_session (err x) = raise (opaque "no valid auth")

  unfoldable pub resolve : R → Exec W String
  resolve req =
      let h = r.authorization req in
      if starts_with h "Bearer "
      then (do bearer ← attempt (resolve_bearer (slice h 7 (len h))); or_session req bearer)
      else or_session req (err (opaque "no bearer key"))
