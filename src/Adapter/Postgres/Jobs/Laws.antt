-- ===== src/Adapter/Postgres/Jobs/Laws.antt =====
-- The jobs repository keeps the contract of the jobs port.
use mathlib.Core.List.{Memᴰ}
use agentic_delegator.Prelude.{
  ℕ, String, Bool, Bool-cases, ◌&&◌, true, ◌≡◌, refl, sym, ap, ◌∙◌, ◌⊎◌, inl, inr, List, map,
  Option, none, some, All, All-map, All-of_map, mem-map, length-map, arith, eq_iff, string_eq,
  Option-cases, if◌then◌else◌,
}
use agentic_delegator.Prelude.Int.{ℤ}
use agentic_delegator.Prelude.Text.{◌==◌}
use agentic_delegator.Domain.Errors.{Error, sentinel, opaque, not_found}
use agentic_delegator.Domain.Job.{Job, JobStatus, queued, running, unknown, is_queued, is_running}
use agentic_delegator.Domain.Names.{status_text, status_of, status_of-text, status_text-of}
use agentic_delegator.Exec.{ok, err}
use agentic_delegator.Ports.Jobs
use agentic_delegator.Ports.Jobs.{
  JobsContract, Answers, put, found, owned, limit_of, is_queued_or_running,
}
use agentic_delegator.Go.Listing.{ListsNewest}
use agentic_delegator.Go.Listing.Mapped.{ListsNewest-map, Enumerates-map}
use agentic_delegator.Adapter.Postgres.Table.{Table, IsTable, mapped, mapped-some, mapped-changed}
use agentic_delegator.Adapter.Postgres.Models.{JobRow, to_job, from_job, to_job-from_job}
use agentic_delegator.Adapter.Postgres.Jobs.{
  jobs_repo, create, get, get_for_user, list_for_user, list_by_status, update,
  count_active_for_user, count_active_global, is_active,
}

abbrev pub row_id : JobRow → String
row_id r = r.id

status_read :
    (r : JobRow) (s : JobStatus) → (r.status == status_text s) ≡ true → (to_job r).status ≡ s
unfolding to_job
status_read r s h = ap status_of ((eq_iff r.status (status_text s)).0 h) ∙ status_of-text s

status_written :
    (r : JobRow) (s : JobStatus) → (to_job r).status ≡ s → (r.status == status_text s) ≡ true
unfolding to_job
status_written r s h =
    (eq_iff r.status (status_text s)).1 (sym (status_text-of r.status) ∙ ap status_text h)

user_read : (r : JobRow) (user : String) → (r.user_id == user) ≡ true → (to_job r).user_id ≡ user
unfolding to_job
user_read r user h = (eq_iff r.user_id user).0 h

user_written : (r : JobRow) (user : String) → (to_job r).user_id ≡ user → (r.user_id == user) ≡ true
unfolding to_job
user_written r user h = (eq_iff r.user_id user).1 h

created_at-to_job : (r : JobRow) → (to_job r).created_at ≡ r.created_at
unfolding to_job
created_at-to_job r = refl

job_id-to_job : (r : JobRow) → (to_job r).id ≡ r.id
unfolding to_job
job_id-to_job r = refl

status_queued : (s : JobStatus) → is_queued s ≡ true → s ≡ queued
status_queued (unknown t p) h = absurd (ground arith)
status_queued s h = ground arith

status_running : (s : JobStatus) → is_running s ≡ true → s ≡ running
status_running (unknown t p) h = absurd (ground arith)
status_running s h = ground arith

-- A row is counted as active where its job is queued or running.
active_read : (r : JobRow) → is_active r ≡ true → is_queued_or_running (to_job r) ≡ true
active_read r h = elim (Bool-cases (r.status == status_text queued)) [
  | inl is ↦ rw (status_read r queued is) refl
  | inr other ↦
      let is : (r.status == status_text running) ≡ true = ground arith in
      rw (status_read r running is) refl
]

active_written : (r : JobRow) → is_queued_or_running (to_job r) ≡ true → is_active r ≡ true
active_written r h = elim (Bool-cases (is_queued (to_job r).status)) [
  | inl is ↦ rw (status_written r queued (status_queued (to_job r).status is)) refl
  | inr other ↦
      let is : is_running (to_job r).status ≡ true = ground arith in
      ground (arith, status_written r running (status_running (to_job r).status is))
]

module _ {W : Type 0} (db : Table W String JobRow) (rows : W → String → Option JobRow)
    (table : IsTable db row_id rows) where
  open table use {keyed, insert_lem, find_lem, query_lem, newest_lem, update_lem, count_lem}

  abbrev pub jobs_of : W → Jobs.Table
  jobs_of w id = mapped to_job (rows w id)

  -- A row that is written for a job is that job in the table of jobs.
  written :
      (j : Job) (w w' : W)
      → (rows w' ≡ λ k. if j.id == k then some (from_job j) else rows w k)
      → jobs_of w' ≡ put j (jobs_of w)
  written j w w' h =
      mapped-changed to_job _ _ _ _ h
      ∙ ap (λ (x : Job). λ k. if j.id == k then some x else jobs_of w k) (to_job-from_job j)

  create_law :
      (j : Job) (w : W)
      → ((jobs_of w j.id ≡ none)
          × (create db j w).0 ≡ ok tt
          × (jobs_of (create db j w).1 ≡ put j (jobs_of w)))
        ⊎ ((e : Error) × (create db j w ≡ (err e, w)))
  unfolding create from_job
  create_law j w = elim (insert_lem (from_job j) w) [
    | inl (absent, done, after) ↦ inl (ap (mapped to_job) absent, done, written j w _ after)
    | inr (m, failed) ↦ inr (opaque m, failed)
  ]

  get_law : (id : String) (w : W) → Answers (get db id w) (found (jobs_of w id)) w
  unfolding get
  get_law id w = elim (find_lem id w) [
    | inr (m, failed) ↦ inr (m, ground arith)
    | inl answer ↦ elim (Option-cases (rows w id)) [
      | inl missing ↦ inl (ground arith)
      | inr (r, there) ↦ inl (ground arith)
    ]
  ]

  get_for_user_law :
      (id user : String) (w : W) → Answers (get_for_user db id user w) (owned user (jobs_of w id)) w
  unfolding get_for_user get
  get_for_user_law id user w = elim (find_lem id w) [
    | inr (m, failed) ↦ inr (m, ground arith)
    | inl answer ↦ elim (Option-cases (rows w id)) [
      | inl missing ↦ inl (ground arith)
      | inr (r, there) ↦ inl (ground arith)
    ]
  ]

  update_law :
      (j : Job) (w : W)
      → ((old : Job) × (jobs_of w j.id ≡ some old)
          × ((update db j w).0 ≡ ok tt)
          × (jobs_of (update db j w).1 ≡ put j (jobs_of w)))
        ⊎ ((e : Error) × (update db j w ≡ (err e, w)))
  unfolding update from_job
  update_law j w = elim (update_lem j.id (λ old. from_job j) w (λ r there. refl)) [
    | inr (inr (m, failed)) ↦ inr (opaque m, ground arith)
    | inl (missing, none_affected) ↦ inr (sentinel not_found, ground arith)
    | inr (inl (r, there, one_affected, after)) ↦
        let w' : W = (db.update j.id (λ old. from_job j) w).1 in
        let ends : (update db j w).1 ≡ w' = ground arith in
        inl (to_job r, rw there refl, ground arith, ap jobs_of ends ∙ written j w w' after)
  ]

  read_back :
      (r : JobRow) (w : W) → rows w r.id ≡ some r → jobs_of w (to_job r).id ≡ some (to_job r)
  unfolding to_job
  read_back r w there = ap (mapped to_job) there

  list_by_status_law :
      (s : JobStatus) (w : W)
      → ((js : List Job) × (list_by_status db s w ≡ (ok js, w))
          × All (λ j. (jobs_of w j.id ≡ some j) × (j.status ≡ s)) js
          × ((id : String) (j : Job) → jobs_of w id ≡ some j → j.status ≡ s → Memᴰ j js))
        ⊎ ((m : String) × (list_by_status db s w ≡ (err (opaque m), w)))
  unfolding list_by_status
  list_by_status_law s w = elim (query_lem (λ r. r.status == status_text s) w) [
    | inr (m, failed) ↦ inr (m, ground arith)
    | inl (rs, listed, sound, complete) ↦ inl (
      map to_job rs,
      ground arith,
      All-of_map to_job _ rs
          (All-map _ _ rs (λ r here. (read_back r w here.0, status_read r s here.1)) sound),
      λ id j there same.
          let (r, row, is_j) = mapped-some to_job (rows w id) j there in
          rw is_j at (
            mem-map to_job r rs
              (complete id r row (status_written r s (ap (λ (k : Job). k.status) is_j ∙ same)))),
    )
  ]

  -- The jobs of the rows that pass are the jobs that pass.
  row_read :
      (P : JobRow → Type 0) (Q : Job → Type 0)
      → ((r : JobRow) → P r → Q (to_job r))
      → (w : W) (r : JobRow) → rows w (row_id r) ≡ some r
      → P r
      → (jobs_of w (to_job r).id ≡ some (to_job r)) × Q (to_job r)
  row_read P Q on w r there passes = (read_back r w there, on r passes)

  row_back :
      (P : JobRow → Type 0) (Q : Job → Type 0)
      → ((r : JobRow) → Q (to_job r) → P r)
      → (w : W) (id : String) (j : Job) → jobs_of w id ≡ some j
      → Q j
      → (r : JobRow) × (rows w id ≡ some r) × (to_job r ≡ j) × P r
  row_back P Q on w id j there passes =
      let (r, row, is_j) = mapped-some to_job (rows w id) j there in
      (r, row, is_j, on r (rw is_j passes))

  list_for_user_law :
      (user : String) (limit : ℤ) (w : W)
      → ((js : List Job) × (list_for_user db user limit w ≡ (ok js, w))
          × ListsNewest
              (λ j. j.id)
              (λ j. j.created_at)
              (jobs_of w)
              (limit_of limit)
              (λ j. j.user_id ≡ user)
              js)
        ⊎ ((m : String) × (list_for_user db user limit w ≡ (err (opaque m), w)))
  unfolding list_for_user
  list_for_user_law user limit w =
      let at : JobRow → ℕ = λ r. r.created_at in
      let own : JobRow → Bool = λ r. r.user_id == user in
      elim (newest_lem at own (limit_of limit) w) [
        | inr (m, failed) ↦ inr (m, ground arith)
        | inl (rs, listed, latest) ↦ inl (
          map to_job rs,
          ground arith,
          ListsNewest-map to_job row_id (λ j. j.id) job_id-to_job (rows w) (jobs_of w)
              (λ r. own r ≡ true) (λ j. j.user_id ≡ user)
              (row_read (λ r. own r ≡ true) (λ j. j.user_id ≡ user) (λ r h. user_read r user h) w)
              (row_back (λ r. own r ≡ true) (λ j. j.user_id ≡ user) (λ r h. user_written r user h)
                w)
              at (λ j. j.created_at) created_at-to_job (limit_of limit) rs latest,
        )
      ]

  count-Counts :
      (p : JobRow → Bool) (Q : Job → Type 0)
      → ((r : JobRow) → p r ≡ true → Q (to_job r))
      → ((r : JobRow) → Q (to_job r) → p r ≡ true)
      → (w : W) → Jobs.Counts (db.count p) (jobs_of w) Q w
  count-Counts p Q on back w = elim (count_lem p w) [
    | inr failed ↦ inr failed
    | inl (rs, counted, all) ↦ inl (
      map to_job rs,
      rw (length-map to_job rs) counted,
      Enumerates-map to_job row_id (λ j. j.id) job_id-to_job (rows w) (jobs_of w) (λ r. p r ≡ true)
          Q (row_read (λ r. p r ≡ true) Q on w) (row_back (λ r. p r ≡ true) Q back w) rs all,
    )
  ]

  -- Over a table that keeps what SQL promises, with times in whole microseconds, the Postgres jobs
  -- repository keeps the contract of the jobs port, for the jobs that its rows stand for: a row is
  -- added or replaced as it is given, or the call fails and nothing changes; a job is answered to
  -- its owner only; the list of a status holds exactly the jobs in it; the list of a user holds the
  -- user's most recent jobs, each once and the latest first, up to the limit; and the counts are
  -- those of the jobs that are queued or running.
  pub jobs_repo-JobsContract : JobsContract (jobs_repo db) jobs_of
  unfolding count_active_for_user count_active_global
  jobs_repo-JobsContract = record {
    keyed = λ w id j there.
        let (r, row, is_j) = mapped-some to_job (rows w id) j there in
        ap (λ (k : Job). k.id) (sym is_j) ∙ job_id-to_job r ∙ keyed w id r row;
    create_lem = create_law;
    get_lem = get_law;
    get_for_user_lem = get_for_user_law;
    update_lem = update_law;
    list_by_status_lem = list_by_status_law;
    list_for_user_lem = list_for_user_law;
    count_active_for_user_lem = λ user.
        count-Counts (λ r. (r.user_id == user) && is_active r)
          (λ j. (j.user_id ≡ user) × (is_queued_or_running j ≡ true))
          (λ r h. (user_read r user (ground arith), active_read r (ground arith)))
          (λ r h. ground (arith, user_written r user h.0, active_written r h.1));
    count_active_global_lem =
        count-Counts is_active (λ j. is_queued_or_running j ≡ true) active_read active_written;
  }
