-- ===== src/Adapter/Ghapp/Install/Binding.antt =====
-- Whose an installation is after its callback.
use agentic_delegator.Prelude.{int_eq}
use agentic_delegator.Adapter.Postgres.Table.{Table}
use agentic_delegator.Adapter.Postgres.Installations
