-- ===== src/Ports/Quiet.antt =====
-- That a call leaves a part of the world alone, such as the rows of the jobs table.
use agentic_delegator.Prelude.{◌≡◌}

-- No other actor's step on what is looked at falls within the call.
abbrev pub Quiet : {W A B : Type 0} → (W → B) → (W → A × W) → Type 0
Quiet {W} view m = (w : W) → view (m w).1 ≡ view w
