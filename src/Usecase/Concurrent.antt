-- ===== src/Usecase/Concurrent.antt =====
-- Goroutines over one jobs table: requests, the supervisors' reports and the check at the start run
-- side by side, and none of core/usecase holds a transaction or a lock between its reads and writes
-- of a job. What a goroutine has read is a copy; the repository's calls are the steps.
pub mod Sound
pub mod Kept
pub mod Follows
use mathlib.Core.List.{Memᴰ}
use agentic_delegator.Prelude.{ℕ, String, ◌≡◌, List, [], ◌∷◌, Option, none, some}
use agentic_delegator.Domain.Spec.{SpecSource}
use agentic_delegator.Domain.Job.{Job, new_job}
use agentic_delegator.Domain.Job.Lifecycle.{Move}
use agentic_delegator.Ports.Jobs.{Table, put}

-- A job as `Execute` of enqueue_job.go builds it.
pub data IsNew : Job → Type 0 where
  built :
      (id user repo base work : String) (spec : SpecSource) (model path : String) (now : ℕ)
      {j : Job}
      → (j ≡ record (new_job id user repo base work spec model now) { log_path = path })
      → IsNew j

-- The table, the copies that goroutines hold or once held, and each job as it was when it was
-- submitted, or before the first step.
pub record System : Type 0 where
  pub rows : Table
  pub copies : List Job
  pub submitted : Table

pub data Step (s : System) : System → Type 0 where
  submit :
      (j : Job)
      → IsNew j
      → s.rows j.id ≡ none
      → Step s
          (record { rows = put j s.rows; copies = j ∷ s.copies; submitted = put j s.submitted })
  load : (id : String) (j : Job) → s.rows id ≡ some j → Step s (record s { copies = j ∷ s.copies })
  change : (j k : Job) → Memᴰ j s.copies → Move j k → Step s (record s { copies = k ∷ s.copies })
  store :
      (k old : Job)
      → Memᴰ k s.copies
      → s.rows k.id ≡ some old
      → Step s (record s { rows = put k s.rows })

pub data Steps (s : System) : System → Type 0 where
  here : Steps s s
  later : {t u : System} → Steps s t → Step t u → Steps s u

pub Steps-trans : {s t u : System} → Steps s t → Steps t u → Steps s u
Steps-trans r here = r
Steps-trans r (later q st) = later (Steps-trans r q) st

-- Before the first step: what the table holds is where each job comes from.
abbrev pub start : Table → System
start rows = record { rows = rows; copies = []; submitted = rows }
