-- ===== src/Tests/Concurrent.antt =====
-- Goroutines over the in-memory adapters.
use mathlib.Core.List.{Memᴰ}
use agentic_delegator.Prelude.{
  String, List, Option, ◌≤◌, ◌≡◌, ◌≢◌, refl, sym, ◌∙◌, some, none, [], ◌∷◌, arith,
}
use agentic_delegator.Prelude.Int.{pos}
use agentic_delegator.Domain.Job
use agentic_delegator.Domain.Job.{Job, failed, cancelled}
use agentic_delegator.Domain.Job.Lifecycle.{Reach, Move, moves, IsConsistent, SameTask}
use agentic_delegator.Exec.{ok}
use agentic_delegator.Go.Map
use agentic_delegator.Ports.Jobs.{Table, put}
use agentic_delegator.Ports.Runner.{RunnerResult, RunnerStartSpec}
use agentic_delegator.Ports.Quiet.{Quiet}
use agentic_delegator.Testutil.FakeJobs
use agentic_delegator.Testutil.FakeRunner
use agentic_delegator.Testutil.FakeSmall
use agentic_delegator.Testutil.World.Wired
use agentic_delegator.Testutil.World.Wired.{World, jobs-JobsContract}
use agentic_delegator.Usecase.CancelJob
use agentic_delegator.Usecase.CancelJob.{CancelJob}
use agentic_delegator.Usecase.CancelJob.Race.{cancel_overwrites}
use agentic_delegator.Usecase.Completion
use agentic_delegator.Usecase.Completion.{HandleRunnerCompletion}
use agentic_delegator.Usecase.Completion.Effect.{hook_dispatch}
use agentic_delegator.Usecase.EnqueueJob.{EnqueueJob}
use agentic_delegator.Usecase.Concurrent.{
  System, Steps, start, submit, load, change, store, here, later, built,
}
use agentic_delegator.Usecase.Concurrent.Sound.{Steps-lifecycle}
use agentic_delegator.Usecase.Concurrent.Follows.{View, Matches, Ends, Follows, SharedJobs, updates}
use agentic_delegator.Usecase.Concurrent.Follows.Completion.{completion-Follows}
use agentic_delegator.Tests.Domain.{fresh, started, spec}
use agentic_delegator.Tests.Usecase.{holding, marshal, report, mine}

-- The table, where other goroutines hold these copies.
abbrev pub held_by : List Job → World → View
held_by copies w = record { rows = Wired.rows w; flight = copies }

abbrev pub seen : World → View
seen = held_by []

-- A call that leaves the table alone is no step of the system.
pub Quiet-Follows :
    {A : Type 0} (copies : List Job) (m : World → A × World)
    → Quiet Wired.rows m
    → Follows (held_by copies) m
Quiet-Follows copies m quiet s w same =
    (s, here, record { same_rows = same.same_rows ∙ sym (quiet w); all_held = same.all_held })

pub Wired-SharedJobs : (copies : List Job) → SharedJobs Wired.jobs (held_by copies)
Wired-SharedJobs copies = record {
  contract = jobs-JobsContract;
  create_alone = λ j w. refl;
  update_alone = λ j w. refl;
}

-- A container that fails when it is told to stop, whose supervisor reports before the stop returns.
abbrev pub failing : RunnerResult
failing = record report { exit_code = pos 137; error = "killed"; pr_url = "" }

abbrev reports : World → World
reports w = (Completion.execute marshal Wired.complete failing w).1

abbrev pub stopping : CancelJob World (Unit {0})
stopping = record Wired.cancel { runner = record Wired.runner { stop = λ c w. (ok tt, reports w) } }

abbrev killed : Job
killed = record started { status = failed; error = "killed"; finished_at = some 100 }

failed-ne_cancelled : failed ≢ cancelled
failed-ne_cancelled h = ground arith

cancel_overwrites_example :
    (k : Job) × (Wired.rows (CancelJob.execute stopping mine (holding started)).1 "j_1" ≡ some k)
    × (k.status ≡ cancelled)
    × ¬ (Reach killed k)
unfolding CancelJob.execute CancelJob.stop_container Completion.execute Completion.conclude
    Completion.notify Completion.dispatch Completion.dispatch_job FakeJobs.get_for_user FakeJobs.get
    FakeJobs.update FakeSmall.now FakeSmall.dispatch Map.lookup Map.insert Job.is_terminal
    Job.mark_cancelled Job.mark_failed
cancel_overwrites_example =
    cancel_overwrites stopping Wired.rows jobs-JobsContract mine started killed (holding started)
      refl refl refl failed-ne_cancelled refl

pub clock-Follows : (copies : List Job) → Follows (held_by copies) Wired.clock.now
unfolding FakeSmall.now
clock-Follows copies = Quiet-Follows copies Wired.clock.now (λ w. refl)

hook-Follows : (url body : String) → Follows seen (hook_dispatch Wired.complete.webhook url body)
unfolding FakeSmall.dispatch
hook-Follows url body = Quiet-Follows [] (hook_dispatch Wired.complete.webhook url body) (λ w. refl)

-- While the webhook is sent, another goroutine writes the copy of the job that it read while the job
-- was running, over the row that the report has just written.
abbrev rewrites : World → World
rewrites w = (Wired.jobs.update started w).1

abbrev overwritten : HandleRunnerCompletion World
overwritten = record Wired.complete {
  webhook = some (record { dispatcher = record { dispatch = λ url body w. (ok tt, rewrites w) } });
}

rewrites-Follows :
    (url body : String)
    → Follows (held_by (started ∷ [])) (hook_dispatch overwritten.webhook url body)
rewrites-Follows url body s w same =
    updates Wired.jobs (held_by (started ∷ [])) (Wired-SharedJobs (started ∷ [])) started s w
      (same.all_held started (Memᴰ.head refl)) same

overwritten_row :
    Wired.rows (Completion.execute marshal overwritten report (holding started)).1 "j_1"
    ≡ some started
unfolding Completion.execute Completion.conclude Completion.notify Completion.dispatch
    Completion.dispatch_job FakeJobs.get FakeJobs.update FakeSmall.now Map.lookup Map.insert
    Job.is_terminal Job.mark_succeeded Job.mark_failed
overwritten_row = refl

-- The other goroutine has its copy.
abbrev before : System
before = record (start (Wired.rows (holding started))) { copies = started ∷ [] }

before-Matches : Matches before (held_by (started ∷ []) (holding started))
before-Matches = record { same_rows = refl; all_held = λ j m. m }

completion-Follows_example :
    Ends before
      (held_by (started ∷ []) (Completion.execute marshal overwritten report (holding started)).1)
completion-Follows_example =
    completion-Follows marshal overwritten (held_by (started ∷ []))
      (Wired-SharedJobs (started ∷ [])) (clock-Follows (started ∷ [])) rewrites-Follows report
      before (holding started) before-Matches

pub reports-Follows :
    {A : Type 0} (a : A) (res : RunnerResult)
    → Follows seen (λ w. (a, (Completion.execute marshal Wired.complete res w).1))
reports-Follows a res =
    completion-Follows marshal Wired.complete seen (Wired-SharedJobs []) (clock-Follows [])
      hook-Follows res

-- A container that is over, and reported, before its start is known.
abbrev pub starting : EnqueueJob World (Unit {0})
starting = record Wired.enqueue {
  runner = record Wired.runner {
    start = λ spec c w.
        let (r, w1) = Wired.runner.start spec c w in
        (
          r,
          (Completion.execute marshal Wired.complete (record failing { job_id = spec.job_id })
              w1).1,
        );
  };
}

pub start-Follows :
    (spec : RunnerStartSpec) (c : Option (Unit {0})) → Follows seen (starting.runner.start spec c)
unfolding FakeRunner.start
start-Follows spec c s w same =
    reports-Follows tt (record failing { job_id = spec.job_id }) s (Wired.runner.start spec c w).1
      (record { same_rows = same.same_rows; all_held = same.all_held })

-- A job is submitted and stored as running by one goroutine; another fails a copy that it had read
-- before.
abbrev empty : Table
empty id = none

abbrev queued_only : System
queued_only = record { rows = put fresh empty; copies = fresh ∷ []; submitted = put fresh empty }

abbrev runs : System
runs = record queued_only {
  rows = put started (put fresh empty);
  copies = started ∷ fresh ∷ fresh ∷ [];
}

abbrev ended : Job
ended = record fresh { status = failed; error = "no key"; finished_at = some 12 }

abbrev overtaken : System
overtaken = record runs {
  rows = put ended (put started (put fresh empty));
  copies = ended ∷ started ∷ fresh ∷ fresh ∷ [];
}

to_runs : Steps (start empty) runs
unfolding Job.mark_running Job.new_job
to_runs =
    later
      (later
        (later
          (later here
            (submit fresh (built "j_1" "u_1" "o/r" "main" "feat" spec "" "" 10 refl) refl))
          (load "j_1" fresh refl))
        (change fresh started (Memᴰ.head refl) (Move.start "c" 11 refl)))
      (store started fresh (Memᴰ.head refl) refl)

to_overtaken : Steps runs overtaken
unfolding Job.mark_failed
to_overtaken =
    later
      (later here (change fresh ended (Memᴰ.tail (Memᴰ.head refl)) (Move.fail "no key" 12 refl)))
      (store ended started (Memᴰ.head refl) refl)

Steps-lifecycle_example :
    ((b : Job) × (runs.submitted "j_1" ≡ some b) × (r : Reach b started) × (moves r ≤ 2))
    × IsConsistent started
    × ((k : Job) → overtaken.rows "j_1" ≡ some k → SameTask started k)
Steps-lifecycle_example =
    Steps-lifecycle empty (λ id j there. absurd (ground arith))
      (λ id j there. absurd (ground arith)) to_runs to_overtaken "j_1" started refl
