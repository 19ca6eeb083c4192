-- ===== src/Adapter/Postgres/Sessions.antt =====
-- core/adapter/postgres/sessions_repo.go
use agentic_delegator.Prelude.{
  ℕ, String, true, ◌≡◌, refl, sym, ap, ◌∙◌, fun_ext, inl, inr, List, Option, none, some, ltb,
  bytes_eq, Bool-cases, Option-cases, arith, if◌then◌else◌,
}
use agentic_delegator.Domain.Errors.{sentinel, opaque, not_found}
use agentic_delegator.Exec.{Exec, ok, err, pure, ◌>>=◌}
use agentic_delegator.Adapter.Sessions.{SessionStore}
use agentic_delegator.Adapter.Sessions.Lifetime.{SessionsContract, Stored}
use agentic_delegator.Adapter.Postgres.Table.{Table, IsTable, mapped, mapped-changed, passing}
use agentic_delegator.Adapter.Postgres.Models.{SessionRow}

abbrev pub session_id : SessionRow → List ℕ
session_id r = r.id

-- `now` reads the system's clock.
module _ {W : Type 0} (now : W → ℕ) (db : Table W (List ℕ) SessionRow) where
  unfoldable pub create : List ℕ → String → ℕ → Exec W (Unit {0})
  create id user expires = db.insert (record { id = id; user_id = user; expires_at = expires })

  abbrev still_valid : Option SessionRow → Exec W String
  still_valid none w = (err (sentinel not_found), w)
  still_valid (some r) w =
      (if ltb r.expires_at (now w) then err (sentinel not_found) else ok r.user_id, w)

  unfoldable pub resolve_user : List ℕ → Exec W String
  resolve_user id = do row ← db.find id; still_valid row

  unfoldable pub delete : List ℕ → Exec W (Unit {0})
  delete id = do n ← db.delete id (λ r. true); pure tt

  abbrev pub sessions_repo : SessionStore W
  sessions_repo = record { create = create; resolve_user = resolve_user; delete = delete }

abbrev pub stored_session : SessionRow → String × ℕ
stored_session r = (r.user_id, r.expires_at)

module _ {W : Type 0} (now : W → ℕ) (db : Table W (List ℕ) SessionRow)
    (rows : W → List ℕ → Option SessionRow) (table : IsTable db session_id rows) where
  open table use {insert_lem, find_lem, delete_lem}

  abbrev pub sessions_of : W → List ℕ → Stored
  sessions_of w id = mapped stored_session (rows w id)

  passing_all : (o : Option SessionRow) → passing (λ r. true) o ≡ none → o ≡ none
  passing_all none h = refl
  passing_all (some r) h = absurd (ground arith)

  -- Over a table that keeps what SQL promises, the Postgres sessions repository keeps the contract
  -- of the sessions store, its expiry by the system's clock included.
  pub sessions_repo-SessionsContract : SessionsContract (sessions_repo now db) sessions_of now
  unfolding create resolve_user delete
  sessions_repo-SessionsContract = record {
    create_lem = λ id user t w.
        elim (insert_lem (record { id = id; user_id = user; expires_at = t }) w) [
          | inr (m, failed) ↦ inr (opaque m, failed)
          | inl (absent, done, after) ↦ inl (done, mapped-changed stored_session _ _ _ _ after)
        ];
    delete_lem = λ id w. elim (delete_lem id (λ r. true) w) [
      | inr (inr (m, failed)) ↦ inr (opaque m, ground arith)
      | inl (missing, none_affected) ↦
          let ends : (delete now db id w).1 ≡ w = ground arith in
          inl (
            ground arith,
            ap sessions_of ends
                ∙ fun_ext λ k. elim (Bool-cases (bytes_eq.beq id k)) [
                  | inl here ↦
                      rw
                        (
                          here,
                          sym ((bytes_eq.beq_iff id k).0 here),
                          passing_all (rows w id) missing,
                        )
                        refl
                  | inr other ↦ rw other refl
                ],
          )
      | inr (inl (r, there, one_affected, after)) ↦
          let w' : W = (db.delete id (λ r. true) w).1 in
          let ends : (delete now db id w).1 ≡ w' = ground arith in
          inl (ground arith, ap sessions_of ends ∙ mapped-changed stored_session _ _ _ _ after)
    ];
    resolve_lem = λ id w. elim (find_lem id w) [
      | inr (m, failed) ↦ inr (m, ground arith)
      | inl answer ↦ elim (Option-cases (rows w id)) [
        | inl missing ↦ inl (ground arith)
        | inr (r, there) ↦ inl (ground arith)
      ]
    ];
  }
