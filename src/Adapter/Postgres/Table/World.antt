-- ===== src/Adapter/Postgres/Table/World.antt =====
-- A table that is a part of a database, with other tables beside it.
use agentic_delegator.Prelude.{ap, ◌∙◌, inl, inr, Option, Eq}
use agentic_delegator.Testutil.World.Lens.{Lens, on, on-unchanged}
use agentic_delegator.Adapter.Postgres.Table.{Table, IsTable}

module _ {W S K R : Type 0} ⦃e : Eq K⦄ (l : Lens W S) where
  abbrev pub on_table : Table S K R → Table W K R
  on_table t = record {
    insert = λ r. on l (t.insert r);
    upsert = λ f r. on l (t.upsert f r);
    find = λ k. on l (t.find k);
    query = λ p. on l (t.query p);
    newest = λ at p limit. on l (t.newest at p limit);
    update = λ k f. on l (t.update k f);
    delete = λ k p. on l (t.delete k p);
    count = λ p. on l (t.count p);
  }

  -- What a table promises, it promises as a part of the database.
  pub on_table-IsTable :
      (t : Table S K R) (key : R → K) (rows : S → K → Option R)
      → IsTable t key rows
      → IsTable (on_table t) key (λ w. rows (l.view w))
  on_table-IsTable t key rows c = record {
    keyed = λ w. c.keyed (l.view w);
    insert_lem = λ r w. elim (c.insert_lem r (l.view w)) [
      | inl (absent, fine, after) ↦ inl (absent, fine, ap rows (l.view-put_back _ w) ∙ after)
      | inr (m, broken) ↦ inr (m, on-unchanged l (t.insert r) w _ broken)
    ];
    upsert_lem = λ f r w same. elim (c.upsert_lem f r (l.view w) same) [
      | inl (fine, after) ↦ inl (fine, ap rows (l.view-put_back _ w) ∙ after)
      | inr (m, broken) ↦ inr (m, on-unchanged l (t.upsert f r) w _ broken)
    ];
    find_lem = λ k w. elim (c.find_lem k (l.view w)) [
      | inl answer ↦ inl (on-unchanged l (t.find k) w _ answer)
      | inr (m, broken) ↦ inr (m, on-unchanged l (t.find k) w _ broken)
    ];
    query_lem = λ p w. elim (c.query_lem p (l.view w)) [
      | inl (rs, listed, sound, complete) ↦
          inl (rs, on-unchanged l (t.query p) w _ listed, sound, complete)
      | inr (m, broken) ↦ inr (m, on-unchanged l (t.query p) w _ broken)
    ];
    newest_lem = λ at p limit w. elim (c.newest_lem at p limit (l.view w)) [
      | inl (rs, listed, latest) ↦ inl (rs, on-unchanged l (t.newest at p limit) w _ listed, latest)
      | inr (m, broken) ↦ inr (m, on-unchanged l (t.newest at p limit) w _ broken)
    ];
    update_lem = λ k f w same. elim (c.update_lem k f (l.view w) same) [
      | inl (absent, none_affected) ↦ inl (absent, on-unchanged l (t.update k f) w _ none_affected)
      | inr (inl (r, there, one, after)) ↦
          inr (inl (r, there, one, ap rows (l.view-put_back _ w) ∙ after))
      | inr (inr (m, broken)) ↦ inr (inr (m, on-unchanged l (t.update k f) w _ broken))
    ];
    delete_lem = λ k p w. elim (c.delete_lem k p (l.view w)) [
      | inl (absent, none_affected) ↦ inl (absent, on-unchanged l (t.delete k p) w _ none_affected)
      | inr (inl (r, there, one, after)) ↦
          inr (inl (r, there, one, ap rows (l.view-put_back _ w) ∙ after))
      | inr (inr (m, broken)) ↦ inr (inr (m, on-unchanged l (t.delete k p) w _ broken))
    ];
    count_lem = λ p w. elim (c.count_lem p (l.view w)) [
      | inl (rs, counted, all) ↦ inl (rs, on-unchanged l (t.count p) w _ counted, all)
      | inr (m, broken) ↦ inr (m, on-unchanged l (t.count p) w _ broken)
    ];
  }
