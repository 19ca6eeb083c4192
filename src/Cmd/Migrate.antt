-- ===== src/Cmd/Migrate.antt =====
-- runMigrate and must of cmd/agentic-delegator/main.go, and its choice of a command. The migrator of
-- bun is a parameter; a fatal error ends the program with its text.
use agentic_delegator.Prelude.{String, Bool, List, [], ◌∷◌, map, if◌then◌else◌}
use agentic_delegator.Prelude.Text.{◌==◌, ◌<>◌}
use agentic_delegator.Domain.Errors.{opaque, error_text}
use agentic_delegator.Exec.{Exec, Result, ok, err, pure, raise, ◌>>=◌, ◌>>◌}

-- A group of migrations prints as its text, and a migration as its name and whether it is applied.
pub record Migrator (W : Type 0) : Type 0 where
  pub init : Exec W (Unit {0})
  pub migrate : Exec W (Bool × String)
  pub rollback : Exec W String
  pub with_status : Exec W (List (String × Bool))

abbrev fatal : {A : Type 0} → String → Result A → Result A
fatal what (ok a) = ok a
fatal what (err e) = err (opaque (what <> ": " <> error_text e))

-- must(what, err)
unfoldable pub must : {W A : Type 0} → String → Exec W A → Exec W A
must what m w = let (r, w') = m w in (fatal what r, w')

abbrev applied_group : Bool × String → List String
applied_group g = if g.0 then "no new migrations" ∷ [] else ("applied: " <> g.1) ∷ []

abbrev status_line : String × Bool → String
status_line m = m.0 <> "  applied=" <> (if m.1 then "true" else "false")

-- The first argument, or "up".
unfoldable pub migrate_command : List String → String
migrate_command [] = "up"
migrate_command (cmd ∷ rest) = cmd

-- The lines that are printed.
unfoldable pub run_migrate : {W : Type 0} → Migrator W → List String → Exec W (List String)
run_migrate m args =
    let cmd = migrate_command args in
    if cmd == "init"
    then (do must "init" m.init; pure ("migration tables initialized" ∷ []))
    else if cmd == "up"
    then (do must "init" m.init; group ← must "migrate" m.migrate; pure (applied_group group))
    else if cmd == "down"
    then (do group ← must "rollback" m.rollback; pure (("rolled back: " <> group) ∷ []))
    else if cmd == "status"
    then (do ms ← must "status" m.with_status; pure (map status_line ms))
    else raise (opaque ("unknown migrate cmd \"" <> cmd <> "\""))

-- `args` stand after the program's name; `load` and `open_db` read the configuration and open the
-- database, and `serve` is runServe.
unfoldable pub run_main :
    {W C D : Type 0}
    → Exec W C
    → (C → Exec W D)
    → (C → D → Exec W (List String))
    → (D → Migrator W)
    → List String
    → Exec W (List String)
run_main load open_db serve migrator [] = raise (opaque "usage: agentic-delegator <serve|migrate>")
run_main load open_db serve migrator (cmd ∷ args) = do
  cfg ← must "config" load
  db ← must "db" (open_db cfg)
  if cmd == "migrate"
      then run_migrate (migrator db) args
      else if cmd == "serve"
      then serve cfg db
      else raise (opaque ("unknown cmd: " <> cmd))
