-- ===== src/Testutil/FakeJobs/Counts.antt =====
-- What the in-memory jobs repository counts.
use agentic_delegator.Prelude.{
  ℕ, suc, String, Bool, true, false, not, ◌&&◌, ◌||◌, ◌≡◌, refl, ap, ◌∙◌, inl, inr, List, [], ◌∷◌,
  ◌++◌, none, select, length, arith, Bool-cases, Option-cases, string_eq, eq_iff, eq_refl,
}
use agentic_delegator.Prelude.Text.{◌==◌}
use agentic_delegator.Domain.Job.{Job, is_queued, is_running}
use agentic_delegator.Go.Map
use agentic_delegator.Testutil.FakeJobs.{
  FakeJobsRepo, key, create, create_in, count_active_for_user,
}
use agentic_delegator.Testutil.FakeJobs.Laws.{fake_jobs}
use agentic_delegator.Usecase.EnqueueJob.Caps.{CountsActive}

select-append :
    (p : Job → Bool) (xs ys : List Job) → select p (xs ++ ys) ≡ select p xs ++ select p ys
select-append p [] ys = refl
select-append p (x ∷ xs) ys = elim (Bool-cases (p x)) [
  | inl kept ↦ rw kept (ap (λ zs. x ∷ zs) (select-append p xs ys))
  | inr left ↦ rw left (select-append p xs ys)
]

length-snoc : (xs : List Job) (j : Job) → length (xs ++ j ∷ []) ≡ suc (length xs)
length-snoc [] j = refl
length-snoc (x ∷ xs) j = ap suc (length-snoc xs j)

-- A new entry is visited last.
values-insert_new :
    (j : Job) (m : List Job)
    → Map.lookup key j.id m ≡ none
    → Map.values key (Map.insert key j m) ≡ Map.values key m ++ j ∷ []
unfolding Map.lookup Map.insert Map.values Map.delete
values-insert_new j [] h = refl
values-insert_new j (u ∷ m) h = elim (Bool-cases (u.id == j.id)) [
  | inl same ↦ absurd (ground arith)
  | inr other ↦
      let rest = values-insert_new j m (ground arith) in
      let differs : (j.id == u.id) ≡ false = ground (arith, eq_iff u.id j.id, eq_iff j.id u.id) in
      let others : Job → Bool = λ v. not (v.id == u.id) in
      let last : select others (j ∷ []) ≡ j ∷ [] = rw differs refl in
      rw other (
        ap (λ vs. u ∷ vs)
          (ap (select others) rest
            ∙ select-append others (Map.values key m) (j ∷ [])
            ∙ ap (λ vs. select others (Map.values key m) ++ vs) last))
]

abbrev active_of : String → Job → Bool
active_of user j = j.user_id == user && (is_queued j.status || is_running j.status)

select-last :
    (p : Job → Bool) (j : Job) (js : List Job)
    → p j ≡ true
    → length (select p (js ++ j ∷ [])) ≡ suc (length (select p js))
select-last p j js passes =
    ap length (select-append p js (j ∷ [])) ∙ rw passes (length-snoc (select p js) j)

abbrev pub active : FakeJobsRepo → String → ℕ
active m user = length (select (active_of user) (Map.values key m))

pub fake_jobs-CountsActive : CountsActive fake_jobs active
unfolding count_active_for_user create create_in
fake_jobs-CountsActive = record {
  counted = λ user w. (refl, inl refl);
  created = λ j w done fresh. elim (Option-cases (Map.lookup key j.id w)) [
    | inl absent ↦
        let active_now : active_of j.user_id j ≡ true = rw (fresh, eq_refl j.user_id) refl in
        let added : (create j w).1 ≡ Map.insert key j w = rw absent refl in
        ap (λ m. active m j.user_id) added
        ∙ ap (λ vs. length (select (active_of j.user_id) vs)) (values-insert_new j w absent)
        ∙ select-last (active_of j.user_id) j (Map.values key w) active_now
    | inr (old, there) ↦ absurd (ground arith)
  ];
}
