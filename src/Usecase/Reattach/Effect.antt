-- ===== src/Usecase/Reattach/Effect.antt =====
-- What the startup check does to the jobs table, over any repository that keeps its contract.
use mathlib.Core.List.{Memᴰ}
use agentic_delegator.Prelude.{
  ℕ, String, Bool, true, false, ◌≡◌, ◌⊎◌, inl, inr, Option, none, some, arith, Bool-cases,
  Option-cases, not, ◌&&◌, fun_ext, ◌∙◌, ap, if◌then◌else◌, sym, subst, eq_iff, List, [], ◌∷◌, All,
}
use agentic_delegator.Prelude.Text.{◌==◌}
use agentic_delegator.Domain.Errors.{Error, opaque}
use agentic_delegator.Domain.Job.{Job, running, is_running, mark_failed}
use agentic_delegator.Ports.Jobs.{Table, JobsContract, put, put_self}
use agentic_delegator.Ports.Quiet.{Quiet}
use agentic_delegator.Exec.{ok, err, Result-cases}
use agentic_delegator.Usecase.Reattach.{ReattachRunningJobs, give_up, check_each, execute}

-- A row is as it was, or it was running in a container that is gone and has been given up.
abbrev pub Swept : (String → Bool) → ℕ → Table → Table → Type 0
Swept alive now before after =
    (id : String)
    → (after id ≡ before id)
      ⊎ ((j : Job) × (before id ≡ some j)
          × (j.status ≡ running)
          × (alive j.container_id ≡ false)
          × (after id ≡ some (give_up now j)))

-- What becomes of a row: running in a container that is gone, it is given up.
abbrev pub sweep : (String → Bool) → ℕ → Option Job → Option Job
sweep alive now none = none
sweep alive now (some j) =
    if is_running j.status && not (alive j.container_id) then some (give_up now j) else some j

give_up-id : (now : ℕ) (j : Job) → (give_up now j).id ≡ j.id
unfolding give_up mark_failed
give_up-id now j = ground arith

Swept-put :
    (alive : String → Bool) (now : ℕ) (before after : Table) (j : Job)
    → Swept alive now before after
    → before j.id ≡ some j
    → j.status ≡ running
    → alive j.container_id ≡ false
    → Swept alive now before (put (give_up now j) after)
Swept-put alive now before after j h there live gone id = elim (Bool-cases (j.id == id)) [
  | inl same ↦
      let e : j.id ≡ id = (eq_iff j.id id).0 same in
      inr (j, rw (← e) there, live, gone, ground (arith, give_up-id now j))
  | inr other ↦ elim (h id) [
    | inl kept ↦ inl (ground (arith, give_up-id now j))
    | inr (k, was, ran, dead, is) ↦ inr (k, was, ran, dead, ground (arith, give_up-id now j))
  ]
]

-- A row that was given up stays so when another row, or itself, is given up.
given_up-put :
    (now : ℕ) (before after : Table) (j k : Job)
    → before j.id ≡ some j
    → before k.id ≡ some k
    → after k.id ≡ some (give_up now k)
    → put (give_up now j) after k.id ≡ some (give_up now k)
given_up-put now before after j k hj hk done = elim (Bool-cases (j.id == k.id)) [
  | inl same ↦
      let e : j.id ≡ k.id = (eq_iff j.id k.id).0 same in
      let js : some j ≡ some k = sym hj ∙ ap before e ∙ hk in ground (arith, give_up-id now j)
  | inr other ↦ ground (arith, give_up-id now j)
]

-- After a loop over all running rows that returned no error, each row is what `sweep` makes of it.
sweep_row :
    (alive : String → Bool) (before after : Table) (now : ℕ) (id : String)
    → Swept alive now before after
    → ((j : Job)
        → before id ≡ some j
        → j.status ≡ running
        → alive j.container_id ≡ false
        → after id ≡ some (give_up now j))
    → after id ≡ sweep alive now (before id)
sweep_row alive before after now id h met = elim (Option-cases (before id)) [
  | inl empty ↦ ground (arith, h id)
  | inr (j, there) ↦ elim (Bool-cases (is_running j.status && not (alive j.container_id))) [
    | inl gone ↦ rw there (ground (arith, met j there (ground arith) (ground arith)))
    | inr fine ↦ ground (arith, h id)
  ]
]

module _ {W C : Type 0} (uc : ReattachRunningJobs W C) (rows : W → Table)
    (contract : JobsContract uc.jobs rows) (clock_quiet : Quiet rows uc.clock.now)
    (inspect_quiet : (c : String) → Quiet rows (uc.runner.inspect c)) (alive : W → String → Bool)
    (inspect_alive : (c : String) (w : W)
      → ((uc.runner.inspect c w).0 ≡ ok (alive w c))
        ⊎ ((e : Error) × ((uc.runner.inspect c w).0 ≡ err e)))
    (alive-inspect : (c : String) (w : W) → alive (uc.runner.inspect c w).1 ≡ alive w)
    (alive-update : (j : Job) (w : W) → alive (uc.jobs.update j w).1 ≡ alive w)
    (alive-now : (w : W) → alive (uc.clock.now w).1 ≡ alive w) where
  open contract use {update_lem, list_by_status_lem}

  abbrev IsRunningRow : Table → Job → Type 0
  IsRunningRow before j = (before j.id ≡ some j) × (j.status ≡ running)

  -- One round of the loop: it stops with an error, or goes on, and gave the job up if it is gone.
  check_each-step :
      (now : ℕ) (j : Job) (js : List Job) (w : W)
      → ((e : Error) × (v : W) × (check_each uc now (j ∷ js) w ≡ (err e, v)) × (rows v ≡ rows w))
        ⊎ ((v : W) × (check_each uc now (j ∷ js) w ≡ check_each uc now js v)
            × (alive v ≡ alive w)
            × (((alive w j.container_id ≡ true) × (rows v ≡ rows w))
                ⊎ ((alive w j.container_id ≡ false) × (rows v ≡ put (give_up now j) (rows w)))))
  unfolding check_each
  check_each-step now j js w =
      let w1 : W = (uc.runner.inspect j.container_id w).1 in
      let quiet : rows w1 ≡ rows w = inspect_quiet j.container_id w in
      let steady : alive w1 ≡ alive w = alive-inspect j.container_id w in
      elim (inspect_alive j.container_id w) [
        | inr (e, broken) ↦ inl (e, w1, ground arith, quiet)
        | inl seen ↦ elim (Bool-cases (alive w j.container_id)) [
          | inl up ↦ inr (w1, ground arith, steady, inl (up, quiet))
          | inr gone ↦ elim (update_lem (give_up now j) w1) [
            | inr (e, broken) ↦ inl (e, w1, ground arith, quiet)
            | inl (old, present, updated, written) ↦ inr (
              (uc.jobs.update (give_up now j) w1).1,
              ground arith,
              alive-update (give_up now j) w1 ∙ steady,
              inr (gone, written ∙ ap (put (give_up now j)) quiet),
            )
          ]
        ]
      ]

  -- Whatever the loop's result, every row is swept.
  check_each-Swept :
      (before : Table) (now : ℕ) (js : List Job) (up : String → Bool) (w : W)
      → alive w ≡ up
      → All (IsRunningRow before) js
      → Swept up now before (rows w)
      → Swept up now before (rows (check_each uc now js w).1)
  unfolding check_each
  check_each-Swept before now [] up w au hs h = h
  check_each-Swept before now (j ∷ js) up w au hs h = elim (check_each-step now j js w) [
    | inl (e, v, stopped, quiet) ↦ rw (stopped, quiet) h
    | inr (v, went, steady, inl (live, quiet)) ↦
        rw went (check_each-Swept before now js up v (steady ∙ au) hs.1 (rw quiet h))
    | inr (v, went, steady, inr (gone, written)) ↦
        let dead : up j.container_id ≡ false =
          sym (ap (λ (f : String → Bool). f j.container_id) au) ∙ gone in
        rw went (
          check_each-Swept before now js up v (steady ∙ au) hs.1
            (rw written (Swept-put up now before (rows w) j h hs.0.0 hs.0.1 dead)))
  ]

  -- A job that was given up before the loop, or that the loop met, is given up after it.
  check_each-keeps :
      (before : Table) (now : ℕ) (js : List Job) (k : Job) (w : W)
      → All (IsRunningRow before) js
      → before k.id ≡ some k
      → rows w k.id ≡ some (give_up now k)
      → rows (check_each uc now js w).1 k.id ≡ some (give_up now k)
  unfolding check_each
  check_each-keeps before now [] k w hs hk done = done
  check_each-keeps before now (j ∷ js) k w hs hk done = elim (check_each-step now j js w) [
    | inl (e, v, stopped, quiet) ↦ rw (stopped, quiet) done
    | inr (v, went, steady, inl (up, quiet)) ↦
        rw went (check_each-keeps before now js k v hs.1 hk (rw quiet done))
    | inr (v, went, steady, inr (gone, written)) ↦ rw went (
        check_each-keeps before now js k v hs.1 hk
          (rw written (given_up-put now before (rows w) j k hs.0.0 hk done)))
  ]

  check_each_met :
      (before : Table) (now : ℕ) (js : List Job) (k : Job) (w : W)
      → All (IsRunningRow before) js
      → Memᴰ k js
      → alive w k.container_id ≡ false
      → (check_each uc now js w).0 ≡ ok tt
      → rows (check_each uc now js w).1 k.id ≡ some (give_up now k)
  check_each_met before now [] k w hs m dead fine = elim m [ ]
  check_each_met before now (j ∷ js) k w hs (Memᴰ.head e) dead fine =
      elim (check_each-step now j js w) [
        | inl (x, v, stopped, quiet) ↦ cc
        | inr (v, went, steady, inl (up, quiet)) ↦ cc
        | inr (v, went, steady, inr (gone, written)) ↦
            rw (went, e)
              (check_each-keeps before now js j v hs.1 hs.0.0
                (rw written (ground (arith, give_up-id now j, put_self (give_up now j) (rows w)))))
      ]
  check_each_met before now (j ∷ js) k w hs (Memᴰ.tail m) dead fine =
      elim (check_each-step now j js w) [
        | inl (x, v, stopped, quiet) ↦ cc
        | inr (v, went, steady, _) ↦ rw went (
            check_each_met before now js k v hs.1 m
              (ap (λ (f : String → Bool). f k.container_id) steady ∙ dead) (rw went at fine))
      ]

  -- Given that no other step on the jobs table falls within the calls of the clock and the runner,
  -- and that the calls change nothing about which containers are alive: whatever the result,
  -- each row is as it was, or was running in a container that is gone and is now failed; and
  -- either an error is returned, or exactly the running rows with a container that is gone are
  -- failed and every other row is as it was.
  pub reattach_effect :
      (w : W)
      → (now : ℕ) × Swept (alive w) now (rows w) (rows (execute uc w).1)
        × (((e : Error) × ((execute uc w).0 ≡ err e))
            ⊎ (((execute uc w).0 ≡ ok tt)
                × (rows (execute uc w).1 ≡ λ id. sweep (alive w) now (rows w id))))
  unfolding execute
  reattach_effect w =
      let now : ℕ = (uc.clock.now w).0 in
      let w1 : W = (uc.clock.now w).1 in
      elim (list_by_status_lem running w) [
        | inr (m, broken) ↦ (now, λ id. inl (ground arith), inl (opaque m, ground arith))
        | inl (js, listed, sound, complete) ↦
            let same : execute uc w ≡ check_each uc now js w1 = ground arith in
            let swept : Swept (alive w) now (rows w) (rows (check_each uc now js w1).1) =
              check_each-Swept (rows w) now js (alive w) w1 (alive-now w) sound
                (λ id. inl (ap (λ (t : Table). t id) (clock_quiet w))) in
            (
              now,
              rw same swept,
              elim (Result-cases (check_each uc now js w1).0) [
                | inr (e, stopped) ↦ inl (e, rw same stopped)
                | inl (tt, fine) ↦ inr (
                  rw same fine,
                  rw same (
                      fun_ext λ id.
                        sweep_row (alive w) (rows w) (rows (check_each uc now js w1).1) now id swept
                          λ j there live dead.
                            subst (λ i. rows (check_each uc now js w1).1 i ≡ some (give_up now j))
                              (contract.keyed w id j there)
                              (check_each_met (rows w) now js j w1 sound (complete id j there live)
                                (ap (λ (f : String → Bool). f j.container_id) (alive-now w) ∙ dead)
                                fine)),
                )
              ],
            )
      ]
