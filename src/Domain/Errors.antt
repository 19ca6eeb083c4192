-- ===== src/Domain/Errors.antt =====
-- core/domain/errors.go: the sentinel errors, and `errors.Is` on chains built by `%w`.
use agentic_delegator.Prelude.{String, Bool, true, false}

pub data Sentinel : Type 0 where
  not_found conflict forbidden invalid_state invalid_input : Sentinel

-- An error of the domain, one made elsewhere (a driver, the network), or `fmt.Errorf("%w: …")`.
pub data Error : Type 0 where
  sentinel : Sentinel → Error
  opaque : String → Error
  wrap : Error → String → Error

abbrev pub same : Sentinel → Sentinel → Bool
same not_found not_found = true
same conflict conflict = true
same forbidden forbidden = true
same invalid_state invalid_state = true
same invalid_input invalid_input = true
same _ _ = false

-- errors.Is(err, target) for a sentinel target
abbrev pub is_error : Error → Sentinel → Bool
is_error (sentinel s) t = same s t
is_error (opaque m) t = false
is_error (wrap e m) t = is_error e t

message : Sentinel → String
message not_found = "not found"
message conflict = "conflict"
message forbidden = "forbidden"
message invalid_state = "invalid state transition"
message invalid_input = "invalid input"

-- err.Error(); a wrapping error carries its whole text
unfoldable pub error_text : Error → String
unfolding message
error_text (sentinel s) = message s
error_text (opaque m) = m
error_text (wrap e m) = m
