-- ===== src/Tests/Enqueue.antt =====
-- A submission for a repository that the GitHub App is not installed on.
use agentic_delegator.Prelude.{ℕ, suc, String, true, ◌≡◌, refl, ◌⊎◌, inl, none, [], ◌∷◌, string_eq}
use agentic_delegator.Prelude.Int.{pos}
use agentic_delegator.Domain.Errors.{Error, is_error, sentinel, not_found, invalid_input}
use agentic_delegator.Domain.Job.{queued}
use agentic_delegator.Domain.Spec
use agentic_delegator.Exec.{ok, err}
use agentic_delegator.Ports.Jobs.{put}
use agentic_delegator.Testutil.FakeSmall
use agentic_delegator.Testutil.World.Wired
use agentic_delegator.Testutil.World.Wired.{World, new_world, jobs-JobsContract}
use agentic_delegator.Usecase.EnqueueJob
use agentic_delegator.Usecase.EnqueueJob.{EnqueueJob}
use agentic_delegator.Usecase.EnqueueJob.Credentials.{no_creds_stays_queued}
use agentic_delegator.Tests.Usecase.{submission}
use agentic_delegator.Tests.Domain.{fresh}
use agentic_delegator.Go.Map
use agentic_delegator.Testutil.FakeJobs
use agentic_delegator.Testutil.FakeJobs.Counts.{active, fake_jobs-CountsActive}
use agentic_delegator.Usecase.EnqueueJob.Caps.{CountsActive, cap_holds}

abbrev bare : EnqueueJob World (Unit {0})
bare = record Wired.enqueue {
  max_concurrent_per_user = pos 0;
  max_concurrent_global = pos 0;
  repo_creds = record { for_repo = λ u r w. (err (sentinel not_found), w) };
}

no_creds_stays_queued_example :
    ((e : Error) × ((EnqueueJob.execute bare submission (new_world 10)).0 ≡ err e)
      × (Wired.rows (EnqueueJob.execute bare submission (new_world 10)).1
          ≡ Wired.rows (new_world 10)))
    ⊎ ((id : String) × (now : ℕ) × ((e : Error) × ((EnqueueJob.execute bare submission
              (new_world 10)).0
            ≡ err e)
          × (is_error e invalid_input ≡ true))
        × ((EnqueueJob.build_job bare submission id now).status ≡ queued)
        × (Wired.rows (new_world 10) id ≡ none)
        × (Wired.rows (EnqueueJob.execute bare submission (new_world 10)).1
            ≡ put (EnqueueJob.build_job bare submission id now) (Wired.rows (new_world 10))))
unfolding EnqueueJob.rejects Spec.valid FakeSmall.now FakeSmall.new_job_id
no_creds_stays_queued_example =
    no_creds_stays_queued bare Wired.rows jobs-JobsContract (λ w. refl) (λ w. refl) (λ u r w. refl)
      refl refl submission (λ w. (sentinel not_found, refl, refl)) (new_world 10) refl

abbrev wired_active : World → String → ℕ
wired_active w user = active w.jobs user

wired-CountsActive : CountsActive Wired.jobs wired_active
unfolding FakeJobs.count_active_for_user
wired-CountsActive = record {
  counted = λ user w. (refl, inl refl);
  created = λ j w done fresh. fake_jobs-CountsActive.created j w.jobs done fresh;
}

-- User u_1 has two queued jobs, as many as the cap of the wired use case.
abbrev crowded : World
crowded = record (new_world 10) {
  jobs = record fresh { id = "j_8" } ∷ record fresh { id = "j_9" } ∷ [];
}

cap_holds_example :
    (EnqueueJob.execute Wired.enqueue submission crowded ≡ (err (sentinel invalid_input), crowded))
    ⊎ ((id : String) × (now : ℕ) × (v : World) × ((EnqueueJob.execute Wired.enqueue submission
            crowded).1
          ≡ (Wired.jobs.create (EnqueueJob.build_job Wired.enqueue submission id now) v).1)
        × (((e : Error) × ((EnqueueJob.execute Wired.enqueue submission crowded).0 ≡ err e))
            ⊎ (((EnqueueJob.execute Wired.enqueue submission crowded).0
                  ≡ ok (record { job_id = id; status = queued }))
                × (wired_active (EnqueueJob.execute Wired.enqueue submission crowded).1 "u_1"
                    ≡ suc (wired_active crowded "u_1")))))
unfolding FakeSmall.now FakeSmall.new_job_id Map.values Map.delete
cap_holds_example =
    cap_holds Wired.enqueue wired_active wired-CountsActive (λ u w. refl) (λ u w. refl) submission
      crowded refl refl
