-- ===== src/Tests/Requests.antt =====
-- Requests over the in-memory adapters, beside other goroutines.
use agentic_delegator.Prelude.{
  ℕ, String, refl, List, [], ◌∷◌, Option, none, some, arith, subst, string_eq,
}
use agentic_delegator.Domain.Job.{is_terminal}
use agentic_delegator.Go.Map
use agentic_delegator.Testutil.FakeSmall
use agentic_delegator.Testutil.World.Wired
use agentic_delegator.Testutil.World.Wired.{World, jobs-JobsContract}
use agentic_delegator.Usecase.Concurrent.Sound.{AllConsistent}
use agentic_delegator.Usecase.Concurrent.Kept.{AllKept}
use agentic_delegator.Usecase.Concurrent.Follows.{Follows}
use agentic_delegator.Adapter.Http.Router.{Deps, Route, guarded, post_cancel, get_status}
use agentic_delegator.Adapter.Http.Router.Isolation.{JobsBehind}
use agentic_delegator.Adapter.Http.Router.Follows.{PortsFollow}
use agentic_delegator.Adapter.Http.Router.Served.{serve_all, served-keeps}
use agentic_delegator.Tests.Concurrent.{
  failing, starting, stopping, seen, Wired-SharedJobs, Quiet-Follows, clock-Follows,
  reports-Follows, start-Follows,
}
use agentic_delegator.Tests.Domain.{started}
use agentic_delegator.Tests.Serving
use agentic_delegator.Tests.Serving.{named}
use agentic_delegator.Tests.Usecase.{holding}
use agentic_delegator.Usecase.Concurrent.{here}
use agentic_delegator.Exec.{Exec, ok}

-- The containers report while they are started and while they are stopped.
abbrev busy : Deps World (Unit {0}) String (Unit {0}) ℕ
busy = record Serving.deps {
  jobs_handler = record Serving.deps.jobs_handler { enqueue = starting; cancel = stopping };
}

busy_table : JobsBehind busy Wired.rows
busy_table = record {
  api_get = jobs-JobsContract;
  api_list = jobs-JobsContract;
  page_get = jobs-JobsContract;
  page_list = jobs-JobsContract;
}

named-Follows : (r : String) → Follows seen (named r)
named-Follows r = Quiet-Follows [] (named r) (λ w. ground arith)

abbrev asks : Option (String → Exec World String) → String → Exec World String
asks none = named
asks (some resolve) = resolve

busy-PortsFollow : PortsFollow busy seen
unfolding FakeSmall.new_job_id FakeSmall.git_creds_for FakeSmall.anthropic_creds_for
    FakeSmall.new_api_key_plaintext FakeSmall.new_api_key_id
busy-PortsFollow = record {
  resolve = named-Follows;
  enqueue_clock = clock-Follows [];
  enqueue_id = Quiet-Follows [] Wired.ids.new_job_id (λ w. refl);
  repo_creds = λ u r. Quiet-Follows [] (Wired.enqueue.repo_creds.for_repo u r) (λ w. refl);
  anthropic_creds = λ u. Quiet-Follows [] (Wired.enqueue.anthropic_creds.for_user u) (λ w. refl);
  start_runner = start-Follows;
  stop_runner = λ c. reports-Follows (ok tt) failing;
  cancel_clock = clock-Follows [];
  set_secret = λ u c s w same. (s, here, same);
  mint_plaintext = Quiet-Follows [] Wired.ids.new_api_key_plaintext (λ w. refl);
  mint_id = Quiet-Follows [] Wired.ids.new_api_key_id (λ w. refl);
  mint_clock = clock-Follows [];
  create_key = λ k s w same. (s, here, same);
  delete_key = λ id user s w same. (s, here, same);
  list_keys = λ u s w same. (s, here, same);
  get_secret = λ u s w same. (s, here, same);
  visit = λ resolve r there. subst (λ o. Follows seen (asks o r)) there (named-Follows r);
  read_file = λ path s w same. (s, here, same);
  health = λ check there. absurd (ground arith);
  mounted_routes = λ m r s w same. (s, here, same);
}

started-AllConsistent : AllConsistent (Wired.rows (holding started))
unfolding Map.lookup is_terminal
started-AllConsistent id j there = ground arith

asked : List (Route (Unit {0}) × String)
asked = (guarded (post_cancel "j_1"), "u_1") ∷ (guarded (get_status "j_1"), "u_2") ∷ []

served-keeps_example :
    AllConsistent (Wired.rows (serve_all busy asked (holding started)).1)
    × AllKept (Wired.rows (holding started)) (Wired.rows (serve_all busy asked (holding started)).1)
served-keeps_example =
    served-keeps busy seen busy_table (Wired-SharedJobs []) (Wired-SharedJobs []) busy-PortsFollow
      asked (holding started) started-AllConsistent refl
