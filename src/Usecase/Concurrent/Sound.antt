-- ===== src/Usecase/Concurrent/Sound.antt =====
-- What no interleaving can break.
use mathlib.Core.List.{Memᴰ}
use agentic_delegator.Prelude.{
  ◌≤◌, String, ◌≡◌, ◌≢◌, sym, ap, ◌∙◌, ◌⊎◌, inl, inr, List, ◌∷◌, none, some, Bool-cases, arith,
  subst, eq_iff, string_eq,
}
use agentic_delegator.Prelude.Text.{◌==◌}
use agentic_delegator.Domain.Job.{Job, new_job, is_terminal}
use agentic_delegator.Domain.Job.Lifecycle.{
  Move, Reach, IsConsistent, SameTask, Move-SameTask, Reach-SameTask, Reach-IsConsistent, moves,
  moves-rank, rank-le,
}
use agentic_delegator.Ports.Jobs.{Table, put, put_self, put_ne}
use agentic_delegator.Usecase.Concurrent.{
  System, Step, Steps, IsNew, built, submit, load, change, store, here, later, start,
}

-- A job that the lifecycle makes of the one that was submitted under its ID.
abbrev pub Derived : Table → Job → Type 0
Derived submitted j = (b : Job) × (submitted j.id ≡ some b) × Reach b j

pub record Sound (s : System) : Type 0 where
  pub keyed : (id : String) (j : Job) → s.rows id ≡ some j → j.id ≡ id
  pub row_derived : (id : String) (j : Job) → s.rows id ≡ some j → Derived s.submitted j
  pub copy_derived : (j : Job) → Memᴰ j s.copies → Derived s.submitted j
  pub kept : (id : String) → s.rows id ≡ none → s.submitted id ≡ none

pub Sound-start :
    (rows : Table) → ((id : String) (j : Job) → rows id ≡ some j → j.id ≡ id) → Sound (start rows)
Sound-start rows keyed = record {
  keyed = keyed;
  row_derived = λ id j there. (j, ap rows (keyed id j there) ∙ there, Reach.here);
  copy_derived = λ j m. elim m [ ];
  kept = λ id gone. gone;
}

-- A row of the table after a write is the job that was written, or an old row.
put-cases :
    (k : Job) (rows : Table) (id : String) (j : Job)
    → put k rows id ≡ some j
    → ((k.id ≡ id) × (k ≡ j)) ⊎ ((k.id ≢ id) × (rows id ≡ some j))
put-cases k rows id j h = elim (Bool-cases (k.id == id)) [
  | inl same ↦ inl ((eq_iff k.id id).0 same, ground arith)
  | inr other ↦ inr (ground (arith, eq_iff k.id id), ground arith)
]

put-absent :
    (k : Job) (rows : Table) (id : String) → put k rows id ≡ none → (k.id ≢ id) × (rows id ≡ none)
put-absent k rows id h = elim (Bool-cases (k.id == id)) [
  | inl same ↦ absurd (ground arith)
  | inr other ↦ (ground (arith, eq_iff k.id id), ground arith)
]

-- What was submitted under other IDs stays.
Derived-submit :
    (j k : Job) (submitted : Table)
    → submitted j.id ≡ none
    → Derived submitted k
    → Derived (put j submitted) k
Derived-submit j k submitted unused (b, born, r) =
    let other : j.id ≢ k.id = λ same. absurd (ground (arith, ap submitted same)) in
    (b, put_ne j submitted k.id other ∙ born, r)

Derived-new : (j : Job) (submitted : Table) → Derived (put j submitted) j
Derived-new j submitted = (j, put_self j submitted, Reach.here)

mem-cases : (a x : Job) (xs : List Job) → Memᴰ a (x ∷ xs) → (a ≡ x) ⊎ Memᴰ a xs
mem-cases a x xs (Memᴰ.head e) = inl e
mem-cases a x xs (Memᴰ.tail m) = inr m

Derived-Move :
    {j k : Job} (submitted : Table) → Move j k → Derived submitted j → Derived submitted k
Derived-Move submitted move (b, born, r) =
    (b, ap submitted (sym (Move-SameTask move).same_id) ∙ born, Reach.next r move)

Step-Sound : {s t : System} → Step s t → Sound s → Sound t
Step-Sound {s} (submit j new unused) h =
    let gone : s.submitted j.id ≡ none = h.kept j.id unused in
    record {
      keyed = λ id k there. elim (put-cases j s.rows id k there) [
        | inl (same, is_j) ↦ sym (ap (λ (x : Job). x.id) is_j) ∙ same
        | inr (other, old) ↦ h.keyed id k old
      ];
      row_derived = λ id k there. elim (put-cases j s.rows id k there) [
        | inl (same, is_j) ↦ subst (Derived (put j s.submitted)) is_j (Derived-new j s.submitted)
        | inr (other, old) ↦ Derived-submit j k s.submitted gone (h.row_derived id k old)
      ];
      copy_derived = λ k m. elim (mem-cases k j s.copies m) [
        | inl is_j ↦ subst (Derived (put j s.submitted)) (sym is_j) (Derived-new j s.submitted)
        | inr old ↦ Derived-submit j k s.submitted gone (h.copy_derived k old)
      ];
      kept = λ id empty.
          let (other, old) = put-absent j s.rows id empty in
          put_ne j s.submitted id other ∙ h.kept id old;
    }
Step-Sound {s} (load id j there) h = record {
  keyed = h.keyed;
  row_derived = h.row_derived;
  copy_derived = λ k m. elim (mem-cases k j s.copies m) [
    | inl is_j ↦ subst (Derived s.submitted) (sym is_j) (h.row_derived id j there)
    | inr old ↦ h.copy_derived k old
  ];
  kept = h.kept;
}
Step-Sound {s} (change j k held move) h = record {
  keyed = h.keyed;
  row_derived = h.row_derived;
  copy_derived = λ l m. elim (mem-cases l k s.copies m) [
    | inl is_k ↦
        subst (Derived s.submitted) (sym is_k)
          (Derived-Move s.submitted move (h.copy_derived j held))
    | inr old ↦ h.copy_derived l old
  ];
  kept = h.kept;
}
Step-Sound {s} (store k old held there) h = record {
  keyed = λ id j now. elim (put-cases k s.rows id j now) [
    | inl (same, is_k) ↦ sym (ap (λ (x : Job). x.id) is_k) ∙ same
    | inr (other, before) ↦ h.keyed id j before
  ];
  row_derived = λ id j now. elim (put-cases k s.rows id j now) [
    | inl (same, is_k) ↦ subst (Derived s.submitted) is_k (h.copy_derived k held)
    | inr (other, before) ↦ h.row_derived id j before
  ];
  copy_derived = h.copy_derived;
  kept = λ id empty. h.kept id (put-absent k s.rows id empty).1;
}

pub Steps-Sound : {s t : System} → Steps s t → Sound s → Sound t
Steps-Sound here h = h
Steps-Sound (later r st) h = Step-Sound st (Steps-Sound r h)

Step-submitted :
    {s t : System}
    → Step s t
    → Sound s
    → (id : String) (b : Job) → s.submitted id ≡ some b
    → t.submitted id ≡ some b
Step-submitted {s} (submit j new unused) h id b born =
    let other : j.id ≢ id =
      λ same. absurd (ground (arith, ap s.submitted same, h.kept j.id unused)) in
    put_ne j s.submitted id other ∙ born
Step-submitted (load i j there) h id b born = born
Step-submitted (change j k held move) h id b born = born
Step-submitted (store k old held there) h id b born = born

pub Steps-submitted :
    {s t : System}
    → Steps s t
    → Sound s
    → (id : String) (b : Job) → s.submitted id ≡ some b
    → t.submitted id ≡ some b
Steps-submitted here h id b born = born
Steps-submitted (later r st) h id b born =
    Step-submitted st (Steps-Sound r h) id b (Steps-submitted r h id b born)

-- A new job is consistent, and so is what a table of consistent jobs starts from.
abbrev pub AllConsistent : Table → Type 0
AllConsistent rows = (id : String) (j : Job) → rows id ≡ some j → IsConsistent j

IsNew-IsConsistent : {j : Job} → IsNew j → IsConsistent j
unfolding new_job is_terminal
IsNew-IsConsistent {j} (built id user repo base work spec model path now e) = ground arith

Step-AllConsistent :
    {s t : System} → Step s t → AllConsistent s.submitted → AllConsistent t.submitted
Step-AllConsistent {s} (submit j new unused) h id b born =
    elim (put-cases j s.submitted id b born) [
      | inl (same, is_j) ↦ subst IsConsistent is_j (IsNew-IsConsistent new)
      | inr (other, before) ↦ h id b before
    ]
Step-AllConsistent (load i j there) h id b born = h id b born
Step-AllConsistent (change j k held move) h id b born = h id b born
Step-AllConsistent (store k old held there) h id b born = h id b born

Steps-AllConsistent :
    {s t : System} → Steps s t → AllConsistent s.submitted → AllConsistent t.submitted
Steps-AllConsistent here h = h
Steps-AllConsistent (later r st) h = Step-AllConsistent st (Steps-AllConsistent r h)

pub some_injective : {a b : Job} → some a ≡ some b → a ≡ b
some_injective h = ground arith

SameTask-both : {b j k : Job} → SameTask b j → SameTask b k → SameTask j k
SameTask-both h g = ground arith

-- Whatever goroutines do to the jobs table side by side, starting from a table of consistent jobs
-- under their IDs: at any moment `s` every row is a job that at most two moves of the lifecycle
-- make of the job that was submitted under that ID, and is consistent; and whatever row has that ID
-- at a later moment `t` is still the same task, of the same user.
pub Steps-lifecycle :
    (rows : Table) {s t : System}
    → ((id : String) (j : Job) → rows id ≡ some j → j.id ≡ id)
    → AllConsistent rows
    → Steps (start rows) s
    → Steps s t
    → (id : String) (j : Job) → s.rows id ≡ some j
    → ((b : Job) × (s.submitted id ≡ some b) × (r : Reach b j) × (moves r ≤ 2))
      × IsConsistent j
      × ((k : Job) → t.rows id ≡ some k → SameTask j k)
Steps-lifecycle rows {s} {t} keyed consistent r q id j there =
    let before : Sound s = Steps-Sound r (Sound-start rows keyed) in
    let (b, born, reach) = before.row_derived id j there in
    let here_born : s.submitted id ≡ some b =
      ap s.submitted (sym (before.keyed id j there)) ∙ born in
    (
      (b, here_born, reach, omega (arith, moves-rank reach, rank-le j.status)),
      Reach-IsConsistent (Steps-AllConsistent r consistent id b here_born) reach,
      λ k later_there.
          let after : Sound t = Steps-Sound q before in
          let (c, born_c, reach_c) = after.row_derived id k later_there in
          let same : c ≡ b = some_injective (
            sym born_c
            ∙ ap t.submitted (after.keyed id k later_there)
            ∙ Steps-submitted q before id b here_born) in
          SameTask-both (Reach-SameTask reach)
            (subst (λ (x : Job). SameTask x k) same (Reach-SameTask reach_c)),
    )
