-- ===== src/Tests/Domain.antt =====
-- The job of core/domain/job.go at concrete inputs.
use agentic_delegator.Prelude.{◌≤◌, refl, some, none}
use agentic_delegator.Domain.Spec.{SpecSource, inline}
use agentic_delegator.Domain.Job.{Job, queued, running, failed, new_job, mark_running, mark_failed}
use agentic_delegator.Domain.Job.Lifecycle.{
  IsConsistent, SameTask, Move, Reach, moves, Reach-new_job,
}

abbrev pub spec : SpecSource
spec = record { source_type = inline; value = "do it" }

abbrev pub fresh : Job
fresh = record {
  id = "j_1";
  user_id = "u_1";
  status = queued;
  repo = "o/r";
  base_branch = "main";
  work_branch = "feat";
  spec = spec;
  model_override = "";
  container_id = "";
  pr_url = "";
  error = "";
  log_path = "";
  created_at = 10;
  started_at = none;
  finished_at = none;
}

abbrev pub started : Job
started = record fresh { status = running; container_id = "c"; started_at = some 11 }

abbrev pub broken : Job
broken = record started { status = failed; error = "boom"; finished_at = some 12 }

path : Reach fresh broken
unfolding mark_running mark_failed new_job
path = Reach.next (Reach.next Reach.here (Move.start "c" 11 refl)) (Move.fail "boom" 12 refl)

Reach-new_job_example :
    IsConsistent broken
    × SameTask (new_job "j_1" "u_1" "o/r" "main" "feat" spec "" 10) broken
    × (moves path ≤ 2)
unfolding new_job
Reach-new_job_example = Reach-new_job "j_1" "u_1" "o/r" "main" "feat" spec "" 10 path
