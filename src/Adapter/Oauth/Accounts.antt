-- ===== src/Adapter/Oauth/Accounts.antt =====
-- Whose an account of GitHub is: the steps of core/adapter/http/auth/github_oauth.go that find or make
-- its user, and what they do to the identities.
use agentic_delegator.Prelude.{
  ℕ, String, ◌≡◌, ap, ◌∙◌, inl, inr, Option, none, some, refl, sym, beq_refl, int_eq, Bool-cases,
  arith, eqb,
}
use agentic_delegator.Prelude.Int.{ℤ}
use agentic_delegator.Exec.{ok, Result-cases}
use agentic_delegator.Adapter.Postgres.Identities.{GitHubIdentity}
use agentic_delegator.Adapter.Oauth.{
  Oauth, Outgoing, token_request, user_request, GhUser, identity_for, exchange_code, fetch_user,
  look_up, user_for,
}
use agentic_delegator.Adapter.Oauth.Contract.{IdentitiesContract, kept}
use agentic_delegator.Ports.Quiet.{Quiet}

module _ {W : Type 0} (o : Oauth W) (identities : W → ℤ → Option GitHubIdentity)
    (contract : IdentitiesContract o.identities identities)
    (remote : (q : Outgoing) → Quiet identities (o.send q))
    (id_quiet : Quiet identities o.id_gen.new_user_id) (clock_quiet : Quiet identities o.clock.now)
    (admin_quiet : (id name : String) (at : ℕ) → Quiet identities (o.upsert_admin id name at)) where
  open contract use {by_github_id_lem, upsert_lem}

  pub exchange_code-identities :
      (code : String) (w : W) → identities (exchange_code o code w).1 ≡ identities w
  unfolding exchange_code
  exchange_code-identities code w =
      let q = token_request o.cfg code in
      elim (Result-cases (o.send q w).0) [
        | inr (e, broken) ↦ ap identities (ground arith) ∙ remote q w
        | inl (resp, sent) ↦ elim (Result-cases (o.decode_token resp.body)) [
          | inr (e, broken) ↦ ap identities (ground arith) ∙ remote q w
          | inl (parsed, read) ↦ ap identities (ground arith) ∙ remote q w
        ]
      ]

  pub fetch_user-identities :
      (tok : String) (w : W) → identities (fetch_user o tok w).1 ≡ identities w
  unfolding fetch_user
  fetch_user-identities tok w =
      let q = user_request tok in
      elim (Result-cases (o.send q w).0) [
        | inr (e, broken) ↦ ap identities (ground arith) ∙ remote q w
        | inl (resp, sent) ↦ elim (Bool-cases (eqb resp.code 200)) [
          | inl fine ↦ ap identities (ground arith) ∙ remote q w
          | inr bad ↦ ap identities (ground arith) ∙ remote q w
        ]
      ]

  -- A known identity gives its user.
  pub user_kept :
      (u : GhUser) (k : Option GitHubIdentity) (uid : String) (w w' : W) (prev : GitHubIdentity)
      → (look_up o u.id w).0 ≡ ok k
      → (user_for o u k w').0 ≡ ok uid
      → identities w u.id ≡ some prev
      → uid ≡ prev.user_id
  unfolding look_up user_for
  user_kept u k uid w w' prev found given before = elim (by_github_id_lem u.id w) [
    | inl answer ↦ ground arith
    | inr (m, broken) ↦ absurd (ground arith)
  ]

  -- To look an account up changes nothing.
  pub look_up_alone : (id : ℤ) (w : W) → (look_up o id w).1 ≡ w
  unfolding look_up
  look_up_alone id w = elim (by_github_id_lem id w) [
    | inl answer ↦ ground arith
    | inr (m, broken) ↦ ground arith
  ]

  -- An account that was not known gets a generated user.
  pub user_made :
      (u : GhUser) (k : Option GitHubIdentity) (uid : String) (w w' : W)
      → (look_up o u.id w).0 ≡ ok k
      → (user_for o u k w').0 ≡ ok uid
      → identities w u.id ≡ none
      → uid ≡ (o.id_gen.new_user_id w').0
  unfolding look_up user_for
  user_made u k uid w w' found given before = elim (by_github_id_lem u.id w) [
    | inl answer ↦ ground arith
    | inr (m, broken) ↦ absurd (ground arith)
  ]

  pub user_for-Quiet : (u : GhUser) (k : Option GitHubIdentity) → Quiet identities (user_for o u k)
  unfolding user_for
  user_for-Quiet u (some i) w = refl
  user_for-Quiet u none w =
      let uid : String = (o.id_gen.new_user_id w).0 in
      let w1 : W = (o.id_gen.new_user_id w).1 in
      let now : ℕ = (o.clock.now w1).0 in
      let w2 : W = (o.clock.now w1).1 in
      let apart : identities (o.upsert_admin uid u.login now w2).1 ≡ identities w =
        admin_quiet uid u.login now w2 ∙ clock_quiet w1 ∙ id_quiet w in
      elim (Result-cases (o.upsert_admin uid u.login now w2).0) [
        | inl (x, done) ↦ ap identities (ground arith) ∙ apart
        | inr (e, broken) ↦ ap identities (ground arith) ∙ apart
      ]

  -- What an identity is, where it was nobody's or this user's.
  kept_user :
      (old : Option GitHubIdentity) (i : GitHubIdentity)
      → ((prev : GitHubIdentity) → old ≡ some prev → i.user_id ≡ prev.user_id)
      → (kept old i).user_id ≡ i.user_id
  kept_user none i same = refl
  kept_user (some prev) i same = sym (same prev refl)

  -- The account's identity is the user's.
  pub linked :
      (u : GhUser) (uid : String) (w : W)
      → (o.identities.upsert (identity_for o u uid) w).0 ≡ ok tt
      → ((prev : GitHubIdentity) → identities w u.id ≡ some prev → uid ≡ prev.user_id)
      → (g : GitHubIdentity) × (identities (o.identities.upsert (identity_for o u uid) w).1 u.id
          ≡ some g)
        × (g.user_id ≡ uid)
  linked u uid w saved mine = elim (upsert_lem (identity_for o u uid) w) [
    | inr (e, failed) ↦ absurd (ground arith)
    | inl (done, after) ↦ (
      kept (identities w u.id) (identity_for o u uid),
      ap (λ (f : ℤ → Option GitHubIdentity). f u.id) after ∙ rw (beq_refl u.id) refl,
      kept_user (identities w u.id) (identity_for o u uid) mine,
    )
  ]
