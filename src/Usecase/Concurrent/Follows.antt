-- ===== src/Usecase/Concurrent/Follows.antt =====
-- That a run of the code is a sequence of steps, with steps of other goroutines in between.
pub mod Cancel
pub mod Completion
pub mod Reattach
pub mod Enqueue
use mathlib.Core.List.{Memᴰ}
use agentic_delegator.Prelude.{
  String, ◌≡◌, refl, sym, ap, ◌∙◌, subst, inl, inr, List, [], ◌∷◌, some, All,
}
use agentic_delegator.Domain.Job.{Job}
use agentic_delegator.Domain.Job.Lifecycle.{Move}
use agentic_delegator.Ports.Jobs.{Table, JobsRepository, JobsContract, put}
use agentic_delegator.Exec.{Result, ok, err}
use agentic_delegator.Usecase.EnqueueJob.{or_same}
use agentic_delegator.Usecase.Concurrent.{
  System, Step, Steps, Steps-trans, start, load, change, store, here, later,
}

-- What can be seen of the world: the jobs table, and the copies of jobs that the other goroutines
-- under way hold, which they read earlier and may write later.
pub record View : Type 0 where
  pub rows : Table
  pub flight : List Job

abbrev pub table : {W : Type 0} → (W → View) → W → Table
table view w = (view w).rows

-- The system has this table, and among its copies those that the other goroutines hold.
pub record Matches (s : System) (v : View) : Type 0 where
  pub same_rows : s.rows ≡ v.rows
  pub all_held : (j : Job) → Memᴰ j v.flight → Memᴰ j s.copies

-- Steps lead from the system to one with this table and these copies.
abbrev pub Ends : System → View → Type 0
Ends s v = (t : System) × Steps s t × Matches t v

-- However far the system has come when it is called, a call goes on by steps: its own, and those of
-- the goroutines that run while it does, which may write a copy that they held before the call.
abbrev pub Follows : {W A : Type 0} → (W → View) → (W → A × W) → Type 0
Follows {W} view m = (s : System) (w : W) → Matches s (view w) → Ends s (view (m w).1)

-- A jobs repository over the table that is seen. Its writes are the caller's own step: what other
-- goroutines hold stays.
pub record SharedJobs {W : Type 0} (repo : JobsRepository W) (view : W → View) : Type 0 where
  pub contract : JobsContract repo (table view)
  pub create_alone : (j : Job) (w : W) → (view (repo.create j w).1).flight ≡ (view w).flight
  pub update_alone : (j : Job) (w : W) → (view (repo.update j w).1).flight ≡ (view w).flight

pub across : {s : System} {v : View} (u : View) → Matches s v → v ≡ u → Matches s u
across {s} u same e = subst (Matches s) e same

pub moved :
    {W : Type 0} (view : W → View) {s : System} {w v : W}
    → Matches s (view w)
    → w ≡ v
    → Matches s (view v)
moved view {s} same e = subst (λ x. Matches s (view x)) e same

pub held_alone :
    {copies flight : List Job} → flight ≡ copies → (j : Job) → Memᴰ j flight → Memᴰ j copies
held_alone e j m = subst (λ l. Memᴰ j l) e m

pub Step-copies : {s t : System} (j : Job) → Step s t → Memᴰ j s.copies → Memᴰ j t.copies
Step-copies j (Step.submit k new unused) m = Memᴰ.tail m
Step-copies j (load id k there) m = Memᴰ.tail m
Step-copies j (change k l held move) m = Memᴰ.tail m
Step-copies j (store k old held there) m = m

-- A copy is not lost.
pub Steps-copies : {s t : System} (j : Job) → Steps s t → Memᴰ j s.copies → Memᴰ j t.copies
Steps-copies j here m = m
Steps-copies j (later r st) m = Step-copies j st (Steps-copies j r m)

pub Ends-trans : {s : System} {v : View} (e : Ends s v) (last : View) → Ends e.0 last → Ends s last
Ends-trans (t, r, same) last (u, q, ends) = (u, Steps-trans r q, ends)

abbrev pub with_copy : System → Job → System
with_copy s j = record s { copies = j ∷ s.copies }

-- One copy more is held.
pub carried : {s : System} {j : Job} {v : View} → Matches s v → Matches (with_copy s j) v
carried same = record {
  same_rows = same.same_rows;
  all_held = λ k m. Memᴰ.tail (same.all_held k m);
}

-- No copy was lost, and the table is as before.
pub grown : {s t : System} {v : View} → Steps s t → t.rows ≡ s.rows → Matches s v → Matches t v
grown r stay same = record {
  same_rows = stay ∙ same.same_rows;
  all_held = λ j m. Steps-copies j r (same.all_held j m);
}

pub loads : (s : System) (id : String) (j : Job) → s.rows id ≡ some j → Steps s (with_copy s j)
loads s id j there = later here (load id j there)

pub changes : (s : System) (j k : Job) → Memᴰ j s.copies → Move j k → Steps s (with_copy s k)
changes s j k held move = later here (change j k held move)

-- The job that a method made of a copy, or the copy itself where its error is thrown away, is held.
pub changes_or_same :
    (s : System) (job : Job) (made : Result Job)
    → Memᴰ job s.copies
    → ((k : Job) → made ≡ ok k → Move job k)
    → (t : System) × Steps s t × (t.rows ≡ s.rows) × Memᴰ (or_same made job) t.copies
changes_or_same s job (err e) held move = (s, here, refl, held)
changes_or_same s job (ok k) held move =
    (with_copy s k, changes s job k held (move k refl), refl, Memᴰ.head refl)

-- Before the first step, where no goroutine holds a copy.
pub start-Matches : {v : View} → v.flight ≡ [] → Matches (start v.rows) v
start-Matches nobody = record { same_rows = refl; all_held = held_alone nobody }

-- All the rows of a list are loaded.
pub loads_each :
    (s : System) (js : List Job)
    → All (λ j. s.rows j.id ≡ some j) js
    → (t : System) × Steps s t × (t.rows ≡ s.rows) × All (λ j. Memᴰ j t.copies) js
loads_each s [] h = (s, here, refl, tt)
loads_each s (j ∷ js) (there, more) =
    let (t, r, same, held) = loads_each s js more in
    (
      with_copy t j,
      Steps-trans r (loads t j.id j (ap (λ (f : Table). f j.id) same ∙ there)),
      same,
      (Memᴰ.head refl, held_on t j js held),
    )
  where
    held_on :
        (t : System) (j : Job) (ks : List Job)
        → All (λ k. Memᴰ k t.copies) ks
        → All (λ k. Memᴰ k (j ∷ t.copies)) ks
    held_on t j [] h = tt
    held_on t j (k ∷ ks) h = (Memᴰ.tail h.0, held_on t j ks h.1)

module _ {W : Type 0} (repo : JobsRepository W) (view : W → View)
    (shared : SharedJobs repo view) where
  -- A write of a copy is a step, or nothing.
  pub updates :
      (k : Job) (s : System) (w : W)
      → Memᴰ k s.copies
      → Matches s (view w)
      → Ends s (view (repo.update k w).1)
  updates k s w held same = elim (shared.contract.update_lem k w) [
    | inr (e, failed) ↦ (s, here, moved view same (ap (λ v. v.1) (sym failed)))
    | inl (old, there, done, written) ↦ (
      record s { rows = put k s.rows },
      later here (store k old held (ap (λ (f : Table). f k.id) same.same_rows ∙ there)),
      record {
        same_rows = ap (put k) same.same_rows ∙ sym written;
        all_held = λ j m. same.all_held j (held_alone (shared.update_alone k w) j m);
      },
    )
  ]
