-- ===== src/Prelude/Text.antt =====
-- Native texts: comparison, concatenation and the test for emptiness.
use Prim.Native.String.{String}
pub use Prim.Native.String.{◌++◌ as ◌<>◌}
pub use text.Mathlib.Text.{◌==◌}
use mathlib.Core.Bool.{Bool}

-- s == ""
abbrev pub is_empty : String → Bool
is_empty s = s == ""
