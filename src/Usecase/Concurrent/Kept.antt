-- ===== src/Usecase/Concurrent/Kept.antt =====
-- What the table still holds after any interleaving.
use agentic_delegator.Prelude.{String, ◌≡◌, inl, inr, none, some, Option-cases, arith}
use agentic_delegator.Domain.Job.{Job}
use agentic_delegator.Domain.Job.Lifecycle.{SameTask}
use agentic_delegator.Ports.Jobs.{Table}
use agentic_delegator.Usecase.Concurrent.{System, Steps, start, here}
use agentic_delegator.Usecase.Concurrent.Sound.{
  AllConsistent, Sound-start, Steps-Sound, Steps-submitted, Steps-lifecycle,
}

-- Each job of the first table is in the second, as the same task.
abbrev pub AllKept : Table → Table → Type 0
AllKept old new =
    (id : String) (j : Job) → old id ≡ some j → (k : Job) × (new id ≡ some k) × SameTask j k

module _ (rows : Table) (keyed : (id : String) (j : Job) → rows id ≡ some j → j.id ≡ id)
    (consistent : AllConsistent rows) where
  pub Steps-AllConsistent-rows : {t : System} → Steps (start rows) t → AllConsistent t.rows
  Steps-AllConsistent-rows r id j there =
      (Steps-lifecycle rows keyed consistent r here id j there).1

  pub Steps-AllKept : {t : System} → Steps (start rows) t → AllKept rows t.rows
  Steps-AllKept {t} r id j there = elim (Option-cases (t.rows id)) [
    | inr (k, now) ↦ (k, now, (Steps-lifecycle rows keyed consistent here r id j there).2 k now)
    | inl gone ↦
        let first = Sound-start rows keyed in
        let still : t.submitted id ≡ some j = Steps-submitted r first id j there in
        let none_left : t.submitted id ≡ none = (Steps-Sound r first).kept id gone in
        absurd (ground arith)
  ]
