-- ===== src/Domain/Job/Lifecycle/Ends.antt =====
-- That the methods of core/domain/job.go come to an end.
use mathlib.Core.WellFounded.{Acc, WellFounded}
use agentic_delegator.Prelude.{ℕ, zero, suc, ◌+◌, ◌≤◌, arith}
use agentic_delegator.Domain.Job.{Job}
use agentic_delegator.Domain.Job.Lifecycle.{Move, rank, rank-le, Move-rank}

Acc-below : (left : ℕ) (j : Job) → 2 ≤ left + rank j.status → Acc (λ (k i : Job). Move i k) j
Acc-below zero j h = Acc.intro j (λ k m. absurd (omega (arith, Move-rank m, rank-le k.status)))
Acc-below (suc left) j h = Acc.intro j (λ k m. Acc-below left k (omega (arith, Move-rank m)))

-- No job can be moved for ever: the relation that leads from what a successful method made of a job
-- back to the job is well founded.
pub Move-WellFounded : WellFounded (λ (k j : Job). Move j k)
unfolding Acc-below
Move-WellFounded = record { apply = λ j. Acc-below 2 j (omega arith) }
