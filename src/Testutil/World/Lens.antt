-- ===== src/Testutil/World/Lens.antt =====
-- An adapter that acts on a part of a world acts on the world.
use agentic_delegator.Prelude.{◌≡◌, ap, ◌∙◌, inl, inr}
use agentic_delegator.Ports.Jobs.{JobsRepository, JobsContract, Table}
use agentic_delegator.Exec.{err}

pub record Lens (W S : Type 0) : Type 0 where
  pub view : W → S
  pub put_back : S → W → W
  pub view-put_back : (s : S) (w : W) → view (put_back s w) ≡ s
  pub put_back-view : (w : W) → put_back (view w) w ≡ w

module _ {W S : Type 0} (l : Lens W S) where
  abbrev pub on : {A : Type 0} → (S → A × S) → W → A × W
  on m w = let (a, s) = m (l.view w) in (a, l.put_back s w)

  abbrev pub on_jobs : JobsRepository S → JobsRepository W
  on_jobs repo = record {
    create = λ j. on (repo.create j);
    get = λ id. on (repo.get id);
    get_for_user = λ id user. on (repo.get_for_user id user);
    list_for_user = λ user limit. on (repo.list_for_user user limit);
    list_by_status = λ s. on (repo.list_by_status s);
    update = λ j. on (repo.update j);
    count_active_for_user = λ user. on (repo.count_active_for_user user);
    count_active_global = on repo.count_active_global;
  }

  pub on-unchanged :
      {A : Type 0} (m : S → A × S) (w : W) (a : A) → m (l.view w) ≡ (a, l.view w) → on m w ≡ (a, w)
  on-unchanged m w a h = cc (h, l.put_back-view w)

  -- A contract kept on the part is kept on the world.
  pub on_jobs-JobsContract :
      (repo : JobsRepository S) (rows : S → Table)
      → JobsContract repo rows
      → JobsContract (on_jobs repo) (λ w. rows (l.view w))
  on_jobs-JobsContract repo rows c = record {
    keyed = λ w. c.keyed (l.view w);
    create_lem = λ j w. elim (c.create_lem j (l.view w)) [
      | inl (absent, fine, added) ↦ inl (absent, fine, ap rows (l.view-put_back _ w) ∙ added)
      | inr (e, broken) ↦ inr (e, on-unchanged (repo.create j) w (err e) broken)
    ];
    get_lem = λ id w. elim (c.get_lem id (l.view w)) [
      | inl h ↦ inl (on-unchanged (repo.get id) w _ h)
      | inr (m, h) ↦ inr (m, on-unchanged (repo.get id) w _ h)
    ];
    get_for_user_lem = λ id user w. elim (c.get_for_user_lem id user (l.view w)) [
      | inl h ↦ inl (on-unchanged (repo.get_for_user id user) w _ h)
      | inr (m, h) ↦ inr (m, on-unchanged (repo.get_for_user id user) w _ h)
    ];
    update_lem = λ j w. elim (c.update_lem j (l.view w)) [
      | inl (old, there, fine, written) ↦
          inl (old, there, fine, ap rows (l.view-put_back _ w) ∙ written)
      | inr (e, broken) ↦ inr (e, on-unchanged (repo.update j) w (err e) broken)
    ];
    list_by_status_lem = λ s w. elim (c.list_by_status_lem s (l.view w)) [
      | inl (js, h, sound, complete) ↦
          inl (js, on-unchanged (repo.list_by_status s) w _ h, sound, complete)
      | inr (m, h) ↦ inr (m, on-unchanged (repo.list_by_status s) w _ h)
    ];
    list_for_user_lem = λ user limit w. elim (c.list_for_user_lem user limit (l.view w)) [
      | inl (js, h, latest) ↦ inl (js, on-unchanged (repo.list_for_user user limit) w _ h, latest)
      | inr (m, h) ↦ inr (m, on-unchanged (repo.list_for_user user limit) w _ h)
    ];
    count_active_for_user_lem = λ user w. elim (c.count_active_for_user_lem user (l.view w)) [
      | inl (js, counted, all) ↦
          inl (js, on-unchanged (repo.count_active_for_user user) w _ counted, all)
      | inr (m, broken) ↦ inr (m, on-unchanged (repo.count_active_for_user user) w _ broken)
    ];
    count_active_global_lem = λ w. elim (c.count_active_global_lem (l.view w)) [
      | inl (js, counted, all) ↦ inl (js, on-unchanged repo.count_active_global w _ counted, all)
      | inr (m, broken) ↦ inr (m, on-unchanged repo.count_active_global w _ broken)
    ];
  }
