-- ===== src/Ports/Jobs.antt =====
-- core/usecase/ports/jobs_repo.go, and what an implementation promises.
use agentic_delegator.Prelude.{
  ℕ, String, Bool, ◌||◌, inl, inr, ap, string_eq, true, ◌≡◌, ◌≢◌, refl, fun_ext, ◌⊎◌, arith, eq_iff,
  eq_refl, Option, none, some, List, if◌then◌else◌, All, length,
}
use agentic_delegator.Prelude.Int.{ℤ, is_positive, to_nat}
use agentic_delegator.Prelude.Text.{◌==◌}
use mathlib.Core.List.{Memᴰ}
use agentic_delegator.Domain.Errors.{Error, sentinel, opaque, not_found}
use agentic_delegator.Domain.Job.{Job, JobStatus, is_queued, is_running}
use agentic_delegator.Go.Listing.{Enumerates, ListsNewest}
use agentic_delegator.Exec.{Exec, Result, ok, err}

pub record JobsRepository (W : Type 0) : Type 0 where
  pub create : Job → Exec W (Unit {0})
  pub get : String → Exec W Job
  pub get_for_user : String → String → Exec W Job
  pub list_for_user : String → ℤ → Exec W (List Job)
  pub list_by_status : JobStatus → Exec W (List Job)
  pub update : Job → Exec W (Unit {0})
  pub count_active_for_user : String → Exec W ℕ
  pub count_active_global : Exec W ℕ

-- The rows of the jobs table, by ID.
abbrev pub Table : Type 0
Table = String → Option Job

abbrev pub put : Job → Table → Table
put j rows id = if j.id == id then some j else rows id

abbrev pub found : Option Job → Result Job
found none = err (sentinel not_found)
found (some j) = ok j

-- The job iff it belongs to the user.
abbrev pub owned : String → Option Job → Result Job
owned user none = err (sentinel not_found)
owned user (some j) = if j.user_id == user then ok j else err (sentinel not_found)

-- A query gives this answer or an error of the store itself, and changes nothing.
abbrev pub Answers : {W A : Type 0} → Result A × W → Result A → W → Type 0
Answers r a w = (r ≡ (a, w)) ⊎ ((m : String) × (r ≡ (err (opaque m), w)))

-- limit <= 0 means no cap.
abbrev pub limit_of : ℤ → Option ℕ
limit_of limit = if is_positive limit then some (to_nat limit) else none

-- Queued or running.
abbrev pub is_queued_or_running : Job → Bool
is_queued_or_running j = is_queued j.status || is_running j.status

-- A call gives the number of exactly the rows that pass or an error of the store itself, and
-- changes nothing.
abbrev pub Counts : {W : Type 0} → Exec W ℕ → Table → (Job → Type 0) → W → Type 0
Counts m rows P w =
    ((js : List Job) × (m w ≡ (ok (length js), w)) × Enumerates (λ j. j.id) rows P js)
    ⊎ ((msg : String) × (m w ≡ (err (opaque msg), w)))

-- What the interface's comments promise, errors of the store itself included.
pub record JobsContract {W : Type 0} (repo : JobsRepository W) (rows : W → Table) : Type 0 where
  pub keyed : (w : W) (id : String) (j : Job) → rows w id ≡ some j → j.id ≡ id
  -- a row is added where there was none, or nothing happens
  pub create_lem :
      (j : Job) (w : W)
      → ((rows w j.id ≡ none)
          × (repo.create j w).0 ≡ ok tt
          × (rows (repo.create j w).1 ≡ put j (rows w)))
        ⊎ ((e : Error) × (repo.create j w ≡ (err e, w)))
  pub get_lem : (id : String) (w : W) → Answers (repo.get id w) (found (rows w id)) w
  pub get_for_user_lem :
      (id user : String) (w : W) → Answers (repo.get_for_user id user w) (owned user (rows w id)) w
  -- a row that is there is replaced, or nothing happens
  pub update_lem :
      (j : Job) (w : W)
      → ((old : Job) × (rows w j.id ≡ some old)
          × ((repo.update j w).0 ≡ ok tt)
          × (rows (repo.update j w).1 ≡ put j (rows w)))
        ⊎ ((e : Error) × (repo.update j w ≡ (err e, w)))
  -- the rows in that status, each of them
  pub list_by_status_lem :
      (s : JobStatus) (w : W)
      → ((js : List Job) × (repo.list_by_status s w ≡ (ok js, w))
          × All (λ j. (rows w j.id ≡ some j) × (j.status ≡ s)) js
          × ((id : String) (j : Job) → rows w id ≡ some j → j.status ≡ s → Memᴰ j js))
        ⊎ ((m : String) × (repo.list_by_status s w ≡ (err (opaque m), w)))
  -- the most recent `limit` rows of that user, or all of them if it is not positive
  pub list_for_user_lem :
      (user : String) (limit : ℤ) (w : W)
      → ((js : List Job) × (repo.list_for_user user limit w ≡ (ok js, w))
          × ListsNewest
              (λ j. j.id)
              (λ j. j.created_at)
              (rows w)
              (limit_of limit)
              (λ j. j.user_id ≡ user)
              js)
        ⊎ ((m : String) × (repo.list_for_user user limit w ≡ (err (opaque m), w)))
  -- the number of the rows of that user that are queued or running
  pub count_active_for_user_lem :
      (user : String) (w : W)
      → Counts
          (repo.count_active_for_user user)
          (rows w)
          (λ j. (j.user_id ≡ user) × (is_queued_or_running j ≡ true))
          w
  -- the number of all rows that are queued or running
  pub count_active_global_lem :
      (w : W) → Counts repo.count_active_global (rows w) (λ j. is_queued_or_running j ≡ true) w

-- A count changes nothing.
Counts-alone :
    {W : Type 0} (m : Exec W ℕ) (rows : Table) (P : Job → Type 0) (w : W)
    → Counts m rows P w
    → (m w).1 ≡ w
Counts-alone m rows P w (inl (js, counted, all)) = ap (λ r. r.1) counted
Counts-alone m rows P w (inr (msg, broken)) = ap (λ r. r.1) broken

module _ {W : Type 0} (repo : JobsRepository W) (rows : W → Table)
    (contract : JobsContract repo rows) where
  pub count_user-alone : (user : String) (w : W) → (repo.count_active_for_user user w).1 ≡ w
  count_user-alone user w =
      Counts-alone (repo.count_active_for_user user) (rows w)
        (λ j. (j.user_id ≡ user) × (is_queued_or_running j ≡ true)) w
        (contract.count_active_for_user_lem user w)

  pub count_all-alone : (w : W) → (repo.count_active_global w).1 ≡ w
  count_all-alone w =
      Counts-alone repo.count_active_global (rows w) (λ j. is_queued_or_running j ≡ true) w
        (contract.count_active_global_lem w)

pub owned-eq-ok :
    (user : String) (o : Option Job) (j : Job)
    → owned user o ≡ ok j
    → (o ≡ some j) × (j.user_id ≡ user)
owned-eq-ok user none j h = cc
owned-eq-ok user (some k) j h = ground (arith, eq_iff k.user_id user)

pub owned-foreign :
    (user : String) (o : Option Job)
    → ((j : Job) → o ≡ some j → j.user_id ≢ user)
    → owned user o ≡ err (sentinel not_found)
owned-foreign user none h = refl
owned-foreign user (some k) h = ground (arith, eq_iff k.user_id user, h k)

-- A later row of the same ID hides an earlier one.
pub put-put : (k j : Job) (rows : Table) → k.id ≡ j.id → put k (put j rows) ≡ put k rows
put-put k j rows h = fun_ext λ id. ground arith

pub put_self : (j : Job) (rows : Table) → put j rows j.id ≡ some j
put_self j rows = rw (eq_refl j.id)

pub put_ne : (j : Job) (rows : Table) (id : String) → j.id ≢ id → put j rows id ≡ rows id
put_ne j rows id h = ground (arith, eq_iff j.id id)
