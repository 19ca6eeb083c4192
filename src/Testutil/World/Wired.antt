-- ===== src/Testutil/World/Wired.antt =====
-- The use cases over the in-memory adapters, as the tests of core/usecase wire them.
use agentic_delegator.Prelude.{ℕ, refl, some, none, []}
use agentic_delegator.Prelude.Int.{pos}
use agentic_delegator.Domain.Credentials.{GitCreds, AnthropicCreds}
use agentic_delegator.Ports.Jobs.{JobsRepository, JobsContract, Table}
use agentic_delegator.Ports.Runner.{RunnerService}
use agentic_delegator.Ports.Small.{Clock, IdGenerator}
use agentic_delegator.Testutil.FakeJobs.{FakeJobsRepo}
use agentic_delegator.Testutil.FakeJobs.Laws.{fake_jobs, rows_of, fake_jobs-JobsContract}
use agentic_delegator.Testutil.FakeRunner.{FakeRunnerService, fake_runner, new_fake_runner}
use agentic_delegator.Testutil.FakeSmall.{
  FakeIdGenerator, FakeProvider, FakeWebhookDispatcher, fake_clock, fake_ids, fake_repo_creds,
  fake_anthropic_creds, fake_dispatcher,
}
use agentic_delegator.Testutil.World.Lens.{Lens, on, on_jobs, on_jobs-JobsContract}
use agentic_delegator.Usecase.CancelJob.{CancelJob}
use agentic_delegator.Usecase.EnqueueJob.{EnqueueJob}
use agentic_delegator.Usecase.Completion.{HandleRunnerCompletion}
use agentic_delegator.Usecase.Reattach.{ReattachRunningJobs}
use agentic_delegator.Usecase.Queries.{GetJob, ListJobs}

pub record World : Type 0 where
  pub jobs : FakeJobsRepo
  pub runner : FakeRunnerService (Unit {0})
  pub clock : ℕ
  pub ids : FakeIdGenerator
  pub git : FakeProvider GitCreds
  pub anthropic : FakeProvider AnthropicCreds
  pub hooks : FakeWebhookDispatcher

abbrev pub new_world : ℕ → World
new_world t = record {
  jobs = [];
  runner = new_fake_runner;
  clock = t;
  ids = record { job_counter = 0; key_counter = 0; user_counter = 0 };
  git = record { creds = record { token = "tok"; expires_at = 0 }; failure = none };
  anthropic = record { creds = record { api_key = "sk-ant" }; failure = none };
  hooks = record { failure = none; calls = [] };
}

abbrev jobs_lens : Lens World FakeJobsRepo
jobs_lens = record {
  view = λ w. w.jobs;
  put_back = λ s w. record w { jobs = s };
  view-put_back = λ s w. refl;
  put_back-view = λ w. refl;
}

abbrev runner_lens : Lens World (FakeRunnerService (Unit {0}))
runner_lens = record {
  view = λ w. w.runner;
  put_back = λ s w. record w { runner = s };
  view-put_back = λ s w. refl;
  put_back-view = λ w. refl;
}

abbrev clock_lens : Lens World ℕ
clock_lens = record {
  view = λ w. w.clock;
  put_back = λ s w. record w { clock = s };
  view-put_back = λ s w. refl;
  put_back-view = λ w. refl;
}

abbrev ids_lens : Lens World FakeIdGenerator
ids_lens = record {
  view = λ w. w.ids;
  put_back = λ s w. record w { ids = s };
  view-put_back = λ s w. refl;
  put_back-view = λ w. refl;
}

abbrev git_lens : Lens World (FakeProvider GitCreds)
git_lens = record {
  view = λ w. w.git;
  put_back = λ s w. record w { git = s };
  view-put_back = λ s w. refl;
  put_back-view = λ w. refl;
}

abbrev anthropic_lens : Lens World (FakeProvider AnthropicCreds)
anthropic_lens = record {
  view = λ w. w.anthropic;
  put_back = λ s w. record w { anthropic = s };
  view-put_back = λ s w. refl;
  put_back-view = λ w. refl;
}

abbrev hooks_lens : Lens World FakeWebhookDispatcher
hooks_lens = record {
  view = λ w. w.hooks;
  put_back = λ s w. record w { hooks = s };
  view-put_back = λ s w. refl;
  put_back-view = λ w. refl;
}

abbrev pub jobs : JobsRepository World
jobs = on_jobs jobs_lens fake_jobs

abbrev pub rows : World → Table
rows w = rows_of w.jobs

pub jobs-JobsContract : JobsContract jobs rows
jobs-JobsContract = on_jobs-JobsContract jobs_lens fake_jobs rows_of fake_jobs-JobsContract

abbrev pub runner : RunnerService World (Unit {0})
runner = record {
  start = λ spec c. on runner_lens (fake_runner.start spec c);
  inspect = λ id. on runner_lens (fake_runner.inspect id);
  stop = λ id. on runner_lens (fake_runner.stop id);
}

abbrev pub clock : Clock World
clock = record { now = on clock_lens fake_clock.now }

abbrev pub ids : IdGenerator World
ids = record {
  new_job_id = on ids_lens fake_ids.new_job_id;
  new_api_key_id = on ids_lens fake_ids.new_api_key_id;
  new_user_id = on ids_lens fake_ids.new_user_id;
  new_api_key_plaintext = on ids_lens fake_ids.new_api_key_plaintext;
}

abbrev pub enqueue : EnqueueJob World (Unit {0})
enqueue = record {
  jobs = jobs;
  repo_creds = record { for_repo = λ u r. on git_lens (fake_repo_creds.for_repo u r) };
  anthropic_creds = record { for_user = λ u. on anthropic_lens (fake_anthropic_creds.for_user u) };
  runner = runner;
  id_gen = ids;
  clock = clock;
  log_dir = "/var/logs";
  max_concurrent_per_user = pos 2;
  max_concurrent_global = pos 3;
  on_complete = some tt;
}

abbrev pub cancel : CancelJob World (Unit {0})
cancel = record { jobs = jobs; runner = runner; clock = clock }

abbrev pub complete : HandleRunnerCompletion World
complete = record {
  jobs = jobs;
  clock = clock;
  webhook = some (record {
    dispatcher = record {
      dispatch = λ url body. on hooks_lens (fake_dispatcher.dispatch url body);
    };
  });
}

abbrev pub reattach : ReattachRunningJobs World (Unit {0})
reattach = record { jobs = jobs; runner = runner; clock = clock }

abbrev pub get : GetJob World
get = record { jobs = jobs }

abbrev pub list : ListJobs World
list = record { jobs = jobs }
