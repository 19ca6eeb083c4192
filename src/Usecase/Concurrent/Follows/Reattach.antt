-- ===== src/Usecase/Concurrent/Follows/Reattach.antt =====
-- The check at the start, beside other goroutines.
use mathlib.Core.List.{Memᴰ}
use agentic_delegator.Prelude.{
  ℕ, String, ◌≡◌, ap, ◌∙◌, inl, inr, List, [], ◌∷◌, All, All-map, some, arith, Bool-cases,
}
use agentic_delegator.Domain.Job.{Job, running, mark_failed}
use agentic_delegator.Domain.Job.Lifecycle.{Move}
use agentic_delegator.Ports.Jobs.{Table}
use agentic_delegator.Exec.{Result-cases}
use agentic_delegator.Usecase.Reattach.{ReattachRunningJobs, give_up, check_each, execute}
use agentic_delegator.Usecase.Concurrent.{System, Steps, Steps-trans, here}
use agentic_delegator.Usecase.Concurrent.Follows.{
  Ends, Follows, View, Matches, SharedJobs, moved, grown, Ends-trans, Steps-copies, loads_each,
  changes_or_same, updates,
}

held_give_up :
    (now : ℕ) (job : Job) (s : System)
    → Memᴰ job s.copies
    → (t : System) × Steps s t × (t.rows ≡ s.rows) × Memᴰ (give_up now job) t.copies
unfolding give_up
held_give_up now job s held =
    changes_or_same s job (mark_failed job "api restarted while runner container gone" now) held
      (λ k failed. Move.fail "api restarted while runner container gone" now failed)

-- Copies of all jobs of a list are still held later.
held_later :
    (s t : System) (js : List Job)
    → Steps s t
    → All (λ j. Memᴰ j s.copies) js
    → All (λ j. Memᴰ j t.copies) js
held_later s t js r h = All-map _ _ js (λ j held. Steps-copies j r held) h

module _ {W C : Type 0} (uc : ReattachRunningJobs W C) (view : W → View)
    (shared : SharedJobs uc.jobs view)
    (inspect_follows : (c : String) → Follows view (uc.runner.inspect c))
    (clock_follows : Follows view uc.clock.now) where
  check_each-Ends :
      (now : ℕ) (js : List Job) (s : System) (w : W)
      → All (λ j. Memᴰ j s.copies) js
      → Matches s (view w)
      → Ends s (view (check_each uc now js w).1)
  unfolding check_each
  check_each-Ends now [] s w held same = (s, here, same)
  check_each-Ends now (j ∷ js) s w held same =
      let w1 : W = (uc.runner.inspect j.container_id w).1 in
      let looked = inspect_follows j.container_id s w same in
      let on = held_later s looked.0 (j ∷ js) looked.1 held in
      Ends-trans looked _ (elim (Result-cases (uc.runner.inspect j.container_id w).0) [
        | inr (e, broken) ↦ (looked.0, here, moved view looked.2 (ground arith))
        | inl (alive, answer) ↦ elim (Bool-cases alive) [
          | inl there ↦
              let (v, r, ends) = check_each-Ends now js looked.0 w1 on.1 looked.2 in
              (v, r, moved view ends (ground arith))
          | inr gone ↦
              let (t, q, rows_stay, k_held) = held_give_up now j looked.0 on.0 in
              let w2 : W = (uc.jobs.update (give_up now j) w1).1 in
              let stored =
                updates uc.jobs view shared (give_up now j) t w1 k_held
                  (grown q rows_stay looked.2) in
              elim (Result-cases (uc.jobs.update (give_up now j) w1).0) [
                | inr (e, failed) ↦
                    (stored.0, Steps-trans q stored.1, moved view stored.2 (ground arith))
                | inl (x, updated) ↦
                    let rest_held = held_later looked.0 stored.0 js (Steps-trans q stored.1) on.1 in
                    let (v, r, ends) = check_each-Ends now js stored.0 w2 rest_held stored.2 in
                    (v, Steps-trans q (Steps-trans stored.1 r), moved view ends (ground arith))
              ]
        ]
      ])

  -- Where other goroutines take steps of the system while containers are looked at and the clock is
  -- read, the whole check is a sequence of such steps.
  pub reattach-Follows : Follows view (execute uc)
  unfolding execute
  reattach-Follows s w same = elim (shared.contract.list_by_status_lem running w) [
    | inr (m, failed) ↦ (s, here, moved view same (ground arith))
    | inl (js, listed, sound, complete) ↦
        let there : All (λ (j : Job). s.rows j.id ≡ some j) js =
          All-map _ _ js (λ j h. ap (λ (f : Table). f j.id) same.same_rows ∙ h.0) sound in
        let (t, r, rows_stay, held) = loads_each s js there in
        let now : ℕ = (uc.clock.now w).0 in
        let w1 : W = (uc.clock.now w).1 in
        let timed = clock_follows t w (grown r rows_stay same) in
        let (v, q, ends) =
          check_each-Ends now js timed.0 w1 (held_later t timed.0 js timed.1 held) timed.2 in
        (v, Steps-trans r (Steps-trans timed.1 q), moved view ends (ground arith))
  ]
