-- ===== src/Adapter/Postgres/Table/Memory.antt =====
-- A table in memory. A list with a key for each row keeps what SQL promises, so that the promises
-- can be kept.
use agentic_delegator.Prelude.{
  ℕ, ◌≡◌, refl, ap, ◌∙◌, fun_ext, inl, inr, List, length, true, select, All-select, mem-select,
  Option, none, some, Eq, Option-cases, if◌then◌else◌,
}
use agentic_delegator.Domain.Errors.{opaque}
use agentic_delegator.Exec.{Result, ok, err}
use agentic_delegator.Go.Map
use agentic_delegator.Adapter.Postgres.Table.{Table, IsTable, merged, passing}
use agentic_delegator.Go.Listing.{first_of_limit, newest_first, newest_first-ListsNewest}

module _ {K R : Type 0} ⦃e : Eq K⦄ (key : R → K) where
  abbrev pub insert_new : Option R → R → List R → Result (Unit {0}) × List R
  insert_new none r m = (ok tt, Map.insert key r m)
  insert_new (some old) r m = (err (opaque "duplicate key value"), m)

  abbrev pub update_old : Option R → (R → R) → List R → Result ℕ × List R
  update_old none f m = (ok 0, m)
  update_old (some r) f m = (ok 1, Map.insert key (f r) m)

  abbrev pub delete_old : Option R → K → List R → Result ℕ × List R
  delete_old none k m = (ok 0, m)
  delete_old (some r) k m = (ok 1, Map.delete key k m)

  abbrev pub memory_table : Table (List R) K R
  memory_table = record {
    insert = λ r m. insert_new (Map.lookup key (key r) m) r m;
    upsert = λ f r m. (ok tt, Map.insert key (merged f (Map.lookup key (key r) m) r) m);
    find = λ k m. (ok (Map.lookup key k m), m);
    query = λ p m. (ok (select p (Map.values key m)), m);
    newest = λ at p limit m.
        (ok (first_of_limit limit (newest_first at (select p (Map.values key m)))), m);
    update = λ k f m. update_old (Map.lookup key k m) f m;
    delete = λ k p m. delete_old (passing p (Map.lookup key k m)) k m;
    count = λ p m. (ok (length (select p (Map.values key m))), m);
  }

  abbrev pub rows_in : List R → K → Option R
  rows_in m k = Map.lookup key k m

  rows_in-insert :
      (k : K) (r : R) (m : List R)
      → key r ≡ k
      → rows_in (Map.insert key r m) ≡ λ j. if e.beq k j then some r else rows_in m j
  rows_in-insert k r m same =
      fun_ext
        λ j. Map.lookup-insert key j r m ∙ ap (λ x. if e.beq x j then some r else rows_in m j) same

  key-merged :
      (f : R → R → R) (o : Option R) (r : R)
      → ((old : R) → o ≡ some old → key old ≡ key r)
      → ((old : R) → key old ≡ key r → key (f old r) ≡ key r)
      → key (merged f o r) ≡ key r
  key-merged f none r stored same = refl
  key-merged f (some old) r stored same = same old (stored old refl)

  -- The table in memory keeps the promises.
  pub memory_table-IsTable : IsTable memory_table key rows_in
  memory_table-IsTable = record {
    keyed = λ m k r there. Map.key-lookup key k m r there;
    insert_lem = λ r m. elim (Option-cases (rows_in m (key r))) [
      | inl absent ↦ inl (absent, rw absent refl, rw absent (rows_in-insert (key r) r m refl))
      | inr (old, taken) ↦ inr ("duplicate key value", rw taken refl)
    ];
    upsert_lem = λ f r m same. inl (
      refl,
      rows_in-insert (key r) (merged f (rows_in m (key r)) r) m (
          key-merged f (rows_in m (key r)) r (λ old there. Map.key-lookup key (key r) m old there)
            same),
    );
    find_lem = λ k m. inl refl;
    query_lem = λ p m. inl (
      select p (Map.values key m),
      refl,
      All-select _ p (Map.values key m) (Map.values_sound key m),
      λ k r there passes.
          mem-select p r (Map.values key m) passes (Map.values_complete key k m r there),
    );
    newest_lem = λ at p limit m. inl (
      first_of_limit limit (newest_first at (select p (Map.values key m))),
      refl,
      newest_first-ListsNewest key at (rows_in m) (λ r. p r ≡ true) limit
          (select p (Map.values key m)) (Map.select-Enumerates key p m),
    );
    update_lem = λ k f m same. elim (Option-cases (rows_in m k)) [
      | inl absent ↦ inl (absent, rw absent refl)
      | inr (r, there) ↦
          inr (inl (r, there, rw there refl, rw there (rows_in-insert k (f r) m (same r there))))
    ];
    delete_lem = λ k p m. elim (Option-cases (passing p (rows_in m k))) [
      | inl absent ↦ inl (absent, rw absent refl)
      | inr (r, there) ↦
          inr (inl (r, there, rw there refl, rw there (fun_ext λ j. Map.lookup-delete key k j m)))
    ];
    count_lem = λ p m. inl (select p (Map.values key m), refl, Map.select-Enumerates key p m);
  }
