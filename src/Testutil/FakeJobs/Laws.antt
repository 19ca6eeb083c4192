-- ===== src/Testutil/FakeJobs/Laws.antt =====
-- The in-memory jobs repository keeps the contract of the port.
use agentic_delegator.Prelude.{
  string_eq, ℕ, zero, suc, ◌≤◌, String, Bool, if◌then◌else◌, ap, sym, true, ◌&&◌, ◌≡◌, refl,
  fun_ext, inl, inr, some, List, [], ◌∷◌, length, select, take, All, All-map, All-select,
  mem-select, Bool-cases, Option-cases, arith, eq_iff,
}
use agentic_delegator.Prelude.Int.{ℤ, pos, negsuc, is_positive, exceeds, to_nat}
use agentic_delegator.Prelude.Text.{◌==◌}
use agentic_delegator.Domain.Errors.{sentinel, not_found, conflict}
use agentic_delegator.Domain.Job.{Job, JobStatus, unknown}
use agentic_delegator.Domain.Names.{unknown-path}
use agentic_delegator.Ports.Jobs.{
  JobsRepository, JobsContract, Table, put, limit_of, is_queued_or_running,
}
use agentic_delegator.Go.Listing.{
  ListsNewest, Enumerates-iff, first_of_limit, newest_first-ListsNewest,
}
use agentic_delegator.Go.Map
use agentic_delegator.Exec.{ok}
use agentic_delegator.Testutil.FakeJobs.{
  FakeJobsRepo, key, status_eq, create, get, get_for_user, newest_first, list_for_user,
  list_by_status, update, count_active_for_user, count_active_global,
}

abbrev pub fake_jobs : JobsRepository FakeJobsRepo
fake_jobs = record {
  create = create;
  get = get;
  get_for_user = get_for_user;
  list_for_user = list_for_user;
  list_by_status = list_by_status;
  update = update;
  count_active_for_user = count_active_for_user;
  count_active_global = count_active_global;
}

abbrev pub rows_of : FakeJobsRepo → Table
rows_of m id = Map.lookup key id m

rows_of-insert : (j : Job) (m : FakeJobsRepo) → rows_of (Map.insert key j m) ≡ put j (rows_of m)
rows_of-insert j m = fun_ext λ id. Map.lookup-insert key id j m

status_eq_iff : (s t : JobStatus) → status_eq s t ≡ true → s ≡ t
status_eq_iff (unknown s p) (unknown t q) h = unknown-path s t p q ((eq_iff s t).0 h)
status_eq_iff s t h = ground arith

status_eq_refl : (s : JobStatus) → status_eq s s ≡ true
status_eq_refl (unknown s p) = (eq_iff s s).1 refl
status_eq_refl s = ground arith

take-all : (n : ℕ) (js : List Job) → length js ≤ n → take n js ≡ js
take-all zero [] h = refl
take-all zero (j ∷ js) h = absurd (omega (arith, h))
take-all (suc n) [] h = refl
take-all (suc n) (j ∷ js) h = ap (λ l. j ∷ l) (take-all n js (omega (arith, h)))

-- out[:limit] where there is a limit and more are there
cut :
    (limit : ℤ) (js : List Job)
    → (if is_positive limit && exceeds (length js) limit then take (to_nat limit) js else js)
      ≡ first_of_limit (limit_of limit) js
cut (negsuc n) js = refl
cut (pos n) js = elim (Bool-cases (is_positive (pos n))) [
  | inr none_set ↦ rw none_set refl
  | inl set ↦ elim (Bool-cases (exceeds (length js) (pos n))) [
    | inl more ↦ rw (set, more) refl
    | inr fits ↦ rw (set, fits) (sym (take-all n js (ground arith)))
  ]
]

abbrev of_user : String → Job → Bool
of_user user j = j.user_id == user

list_for_user_newest :
    (user : String) (limit : ℤ) (m : FakeJobsRepo)
    → (js : List Job) × (list_for_user user limit m ≡ (ok js, m))
      × ListsNewest key (λ j. j.created_at) (rows_of m) (limit_of limit) (λ j. j.user_id ≡ user) js
unfolding list_for_user
list_for_user_newest user limit m =
    let theirs : List Job = select (of_user user) (Map.values key m) in
    (
      first_of_limit (limit_of limit) (newest_first theirs),
      ap (λ js. (ok js, m)) (cut limit (newest_first theirs)),
      newest_first-ListsNewest key (λ j. j.created_at) (rows_of m) (λ j. j.user_id ≡ user)
          (limit_of limit) theirs
          (Enumerates-iff key (rows_of m) (λ j. of_user user j ≡ true) (λ j. j.user_id ≡ user)
            (λ j. eq_iff j.user_id user) theirs (Map.select-Enumerates key (of_user user) m)),
    )

list_by_status_sound :
    (s : JobStatus) (m : FakeJobsRepo)
    → All
        (λ j. (rows_of m j.id ≡ some j) × (j.status ≡ s))
        (select (λ j. status_eq j.status s) (Map.values key m))
list_by_status_sound s m =
    All-map _ _ (select (λ j. status_eq j.status s) (Map.values key m))
      (λ j h. (h.0, status_eq_iff j.status s h.1))
      (All-select (λ j. rows_of m j.id ≡ some j) (λ j. status_eq j.status s) (Map.values key m)
        (Map.values_sound key m))

pub fake_jobs-JobsContract : JobsContract fake_jobs rows_of
unfolding create get get_for_user list_by_status update count_active_for_user count_active_global
fake_jobs-JobsContract = record {
  keyed = λ m id j h. Map.key-lookup key id m j h;
  create_lem = λ j m. elim (Option-cases (Map.lookup key j.id m)) [
    | inl absent ↦ inl (absent, rw absent refl, rw absent (rows_of-insert j m))
    | inr (old, there) ↦ inr (sentinel conflict, rw there refl)
  ];
  get_lem = λ id m. inl (ground arith);
  get_for_user_lem = λ id user m. inl (ground arith);
  update_lem = λ j m. elim (Option-cases (Map.lookup key j.id m)) [
    | inl absent ↦ inr (sentinel not_found, rw absent refl)
    | inr (old, there) ↦ inl (old, there, rw there refl, rw there (rows_of-insert j m))
  ];
  list_by_status_lem = λ s m. inl (
    select (λ j. status_eq j.status s) (Map.values key m),
    refl,
    list_by_status_sound s m,
    λ id j there at.
        mem-select (λ k. status_eq k.status s) j (Map.values key m) (rw at (status_eq_refl s))
          (Map.values_complete key id m j there),
  );
  list_for_user_lem = λ user limit m. inl (list_for_user_newest user limit m);
  count_active_for_user_lem = λ user m.
      let p : Job → Bool = λ j. (j.user_id == user) && is_queued_or_running j in
      inl (
        select p (Map.values key m),
        refl,
        Enumerates-iff key (rows_of m) (λ j. p j ≡ true)
            (λ j. (j.user_id ≡ user) × (is_queued_or_running j ≡ true))
            (λ j. (
              λ h. ((eq_iff j.user_id user).0 (ground arith), ground arith),
              λ h. ground (arith, (eq_iff j.user_id user).1 h.0, h.1),
            ))
            (select p (Map.values key m)) (Map.select-Enumerates key p m),
      );
  count_active_global_lem = λ m. inl (
    select is_queued_or_running (Map.values key m),
    refl,
    Map.select-Enumerates key is_queued_or_running m,
  );
}
