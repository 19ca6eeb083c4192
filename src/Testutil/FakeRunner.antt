-- ===== src/Testutil/FakeRunner.antt =====
-- core/testutil/fake_runner_service.go. `C` stands for the callbacks.
use agentic_delegator.Prelude.{
  string_eq, ℕ, ◌+◌, String, Bool, true, false, Option, none, some, List, [], ◌∷◌, ◌++◌,
  if◌then◌else◌,
}
use agentic_delegator.Prelude.Text.{◌<>◌, is_empty}
use agentic_delegator.Domain.Errors.{Error}
use agentic_delegator.Ports.Runner.{RunnerStartSpec, RunnerService}
use agentic_delegator.Go.Decimal.{decimal}
use agentic_delegator.Go.Map
use agentic_delegator.Go.Map.{Entries}
use agentic_delegator.Exec.{Exec, pure, raise}

pub record FakeRunnerService (C : Type 0) : Type 0 where
  pub start_err : Option Error
  pub started : Entries RunnerStartSpec
  pub alive : Entries Bool
  pub callbacks : Entries (Option C)
  pub next_counter : ℕ
  pub last_id : String
  pub started_specs : List RunnerStartSpec

abbrev pub new_fake_runner : {C : Type 0} → FakeRunnerService C
new_fake_runner = record {
  start_err = none;
  started = [];
  alive = [];
  callbacks = [];
  next_counter = 0;
  last_id = "";
  started_specs = [];
}

abbrev pub or_false : Option Bool → Bool
or_false none = false
or_false (some b) = b

module _ {C : Type 0} where
  start_in : Option Error → RunnerStartSpec → Option C → Exec (FakeRunnerService C) String
  start_in (some e) spec on_complete r = raise e r
  start_in none spec on_complete r =
      let n = r.next_counter + 1 in
      let id = "ctr_" <> decimal n in
      pure id (record r {
        next_counter = n;
        started = Map.set id spec r.started;
        alive = Map.set id true r.alive;
        callbacks = Map.set id on_complete r.callbacks;
        last_id = id;
        started_specs = r.started_specs ++ spec ∷ [];
      })

  unfoldable pub start : RunnerStartSpec → Option C → Exec (FakeRunnerService C) String
  unfolding start_in
  start spec on_complete r = start_in r.start_err spec on_complete r

  unfoldable pub last_started : FakeRunnerService C → Option (String × Option RunnerStartSpec)
  last_started r =
      if is_empty r.last_id then none else some (r.last_id, Map.get r.last_id r.started)

  unfoldable pub inspect : String → Exec (FakeRunnerService C) Bool
  inspect id r = pure (or_false (Map.get id r.alive)) r

  unfoldable pub stop : String → Exec (FakeRunnerService C) (Unit {0})
  stop id r = pure tt (record r { alive = Map.unset id r.alive })

  -- The callback to invoke, if one was given, after the container is gone.
  unfoldable pub complete : String → FakeRunnerService C → Option C × FakeRunnerService C
  complete id r = (joined (Map.get id r.callbacks), record r { alive = Map.unset id r.alive })
    where
      joined : Option (Option C) → Option C
      joined none = none
      joined (some c) = c

  unfoldable pub set_alive : String → Bool → FakeRunnerService C → FakeRunnerService C
  set_alive id b r = record r { alive = Map.set id b r.alive }

  abbrev pub fake_runner : RunnerService (FakeRunnerService C) C
  fake_runner = record { start = start; inspect = inspect; stop = stop }
