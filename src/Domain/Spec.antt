-- ===== src/Domain/Spec.antt =====
-- core/domain/spec.go
use agentic_delegator.Prelude.{String, Bool, true, false, ◌||◌, ◌≡◌, if◌then◌else◌}
use agentic_delegator.Prelude.Text.{is_empty, ◌==◌}

abbrev pub is_source_type : String → Bool
is_source_type s = s == "inline" || (s == "path" || s == "url")

-- The Go type is a string: `unknown` holds any text other than the three constants.
pub data SourceType : Type 0 where
  inline path url : SourceType
  unknown : (s : String) → is_source_type s ≡ false → SourceType

pub record SpecSource : Type 0 where
  pub source_type : SourceType
  pub value : String

abbrev pub is_known : SourceType → Bool
is_known (unknown s other) = false
is_known _ = true

unfoldable pub valid : SpecSource → Bool
valid s = if is_empty s.value then false else is_known s.source_type
