-- ===== src/Adapter/Oauth/SignedIn.antt =====
-- Whom the callback signs in.
use agentic_delegator.Prelude.{
  ℕ, String, true, false, ◌≡◌, ap, ◌∙◌, inl, inr, List, [], ◌∷◌, ◌++◌, Option, none, some, length,
  sym, int_eq, Bool-cases, Option-cases, arith, eq_iff,
}
use agentic_delegator.Prelude.Int.{ℤ}
use agentic_delegator.Prelude.Text.{◌==◌, is_empty}
use agentic_delegator.Exec.{ok, Result-cases}
use agentic_delegator.Go.Hex.{IsBytes}
use agentic_delegator.Adapter.Reply.{redirect}
use agentic_delegator.Adapter.Sessions.{Cookie, login, logout, decode_cookie_value}
use agentic_delegator.Adapter.Sessions.Lifetime.{SessionsContract, Stored, logged_in}
use agentic_delegator.Adapter.Postgres.Identities.{GitHubIdentity}
use agentic_delegator.Adapter.Oauth.{
  Oauth, Outgoing, GhUser, Request, SetCookie, session_cookie, clear_state, logged_out,
  identity_for, state_matches, exchange_code, fetch_user, look_up, user_for, renew_session, sign_in,
  callback,
}
use agentic_delegator.Adapter.Oauth.Accounts.{
  exchange_code-identities, fetch_user-identities, user_kept, look_up_alone, user_made,
  user_for-Quiet, linked,
}
use agentic_delegator.Adapter.Oauth.Contract.{IdentitiesContract}
use agentic_delegator.Ports.Quiet.{Quiet}

-- The state is there, and is the cookie's.
state_matches-cases :
    (r : Request)
    → state_matches r ≡ true
    → (r.state_cookie ≡ some r.state) × (is_empty r.state ≡ false)
unfolding state_matches
state_matches-cases r h = elim (Option-cases r.state_cookie) [
  | inl missing ↦ absurd (ground arith)
  | inr (v, sent) ↦
      let same : (v == r.state) ≡ true = ground arith in
      (sent ∙ ap some ((eq_iff v r.state).0 same), ground arith)
]

module _ {W : Type 0} (o : Oauth W) (identities : W → ℤ → Option GitHubIdentity)
    (contract : IdentitiesContract o.identities identities) (stored : W → List ℕ → Stored)
    (clock : W → ℕ) (lasting : SessionsContract o.sessions.store stored clock)
    (fills : (w : W) (id : List ℕ)
      → (o.sessions.random 32 w).0 ≡ ok id
      → (length id ≡ 32) × IsBytes id)
    (remote : (q : Outgoing) → Quiet identities (o.send q))
    (id_quiet : Quiet identities o.id_gen.new_user_id) (clock_quiet : Quiet identities o.clock.now)
    (admin_quiet : (id name : String) (at : ℕ) → Quiet identities (o.upsert_admin id name at)) where
  -- The session that is renewed is the user's.
  renewed :
      (old : Option (List ℕ)) (uid : String) (w : W)
      → (renew_session o old uid w).0.reply ≡ redirect "/dashboard"
      → (c : Cookie) × (id : List ℕ) × (t : ℕ) × (decode_cookie_value c.value ≡ some id)
        × (stored (renew_session o old uid w).1 id ≡ some (uid, t))
        × (front : List SetCookie) × ((renew_session o old uid w).0.cookies
            ≡ front ++ session_cookie c ∷ [])
  unfolding renew_session
  renewed old uid w done =
      let w1 : W = (logout o.sessions old w).1 in
      elim (Result-cases (login o.sessions uid w1).0) [
        | inr (e, broken) ↦ absurd (ground arith)
        | inl (c, set) ↦
            let (id, spelled, there) =
              logged_in o.sessions stored clock lasting fills uid w1 c set in
            let ends : (renew_session o old uid w).1 ≡ (login o.sessions uid w1).1 = ground arith in
            (
              c,
              id,
              _,
              spelled,
              ap (λ v. stored v id) ends ∙ there,
              clear_state ∷ logged_out o (logout o.sessions old w).0,
              ground arith,
            )
      ]

  signed_in :
      (r : Request) (w : W)
      → (sign_in o r w).0.reply ≡ redirect "/dashboard"
      → (tok : String) × (u : GhUser) × (uid : String) × (w' : W) × ((exchange_code o r.code w).0
          ≡ ok tok)
        × ((fetch_user o tok (exchange_code o r.code w).1).0 ≡ ok u)
        × ((prev : GitHubIdentity) → identities w u.id ≡ some prev → uid ≡ prev.user_id)
        × (identities w u.id ≡ none
            → uid ≡ (o.id_gen.new_user_id (fetch_user o tok (exchange_code o r.code w).1).1).0)
        × ((g : GitHubIdentity) × (identities w' u.id ≡ some g) × (g.user_id ≡ uid))
        × (sign_in o r w ≡ renew_session o r.session uid w')
  unfolding sign_in
  signed_in r w done = elim (Result-cases (exchange_code o r.code w).0) [
    | inr (e, broken) ↦ absurd (ground arith)
    | inl (tok, exchanged) ↦
        let w1 : W = (exchange_code o r.code w).1 in
        elim (Result-cases (fetch_user o tok w1).0) [
          | inr (e, broken) ↦ absurd (ground arith)
          | inl (u, fetched) ↦
              let w2 : W = (fetch_user o tok w1).1 in
              let same : identities w2 ≡ identities w =
                fetch_user-identities o identities contract remote id_quiet clock_quiet admin_quiet
                  tok w1
                ∙ exchange_code-identities o identities contract remote id_quiet clock_quiet
                    admin_quiet r.code w in
              elim (Result-cases (look_up o u.id w2).0) [
                | inr (e, broken) ↦ absurd (ground arith)
                | inl (k, found) ↦
                    let w3 : W = (look_up o u.id w2).1 in
                    elim (Result-cases (user_for o u k w3).0) [
                      | inr (e, broken) ↦ absurd (ground arith)
                      | inl (uid, given) ↦
                          let w4 : W = (user_for o u k w3).1 in
                          elim (Result-cases (o.identities.upsert (identity_for o u uid) w4).0) [
                            | inr (e, broken) ↦ absurd (ground arith)
                            | inl (x, saved) ↦
                                let at2 : identities w2 u.id ≡ identities w u.id =
                                  ap (λ (f : ℤ → Option GitHubIdentity). f u.id) same in
                                let at4 : identities w4 u.id ≡ identities w u.id =
                                  ap (λ (f : ℤ → Option GitHubIdentity). f u.id)
                                    (user_for-Quiet o identities contract remote id_quiet
                                        clock_quiet admin_quiet u k w3
                                      ∙ ap identities (
                                          look_up_alone o identities contract remote id_quiet
                                            clock_quiet admin_quiet u.id w2))
                                  ∙ at2 in
                                let stays : (prev : GitHubIdentity)
                                    → identities w u.id ≡ some prev
                                    → uid ≡ prev.user_id =
                                  λ prev before.
                                    user_kept o identities contract remote id_quiet clock_quiet
                                      admin_quiet u k uid w2 w3 prev found given (at2 ∙ before) in
                                (
                                  tok,
                                  u,
                                  uid,
                                  (o.identities.upsert (identity_for o u uid) w4).1,
                                  exchanged,
                                  fetched,
                                  stays,
                                  λ before.
                                      user_made o identities contract remote id_quiet clock_quiet
                                        admin_quiet u k uid w2 w3 found given (at2 ∙ before)
                                      ∙ ap (λ v. (o.id_gen.new_user_id v).0)
                                          (look_up_alone o identities contract remote id_quiet
                                            clock_quiet admin_quiet u.id w2),
                                  linked o identities contract remote id_quiet clock_quiet
                                      admin_quiet u uid w4 saved
                                      (λ prev before. stays prev (sym at4 ∙ before)),
                                  ground arith,
                                )
                          ]
                    ]
              ]
        ]
  ]

  -- Given the contracts of the identities and of the sessions store, a random source that fills the
  -- session's ID with bytes, and requests to GitHub, a clock, a generator of IDs and a users table
  -- whose calls leave the identities alone: a callback that sends the browser to the dashboard had
  -- the state of its cookie, and made a session of the user of the GitHub account which its code
  -- belongs to: the cookie it sets last names that session. The user is the one that the account's
  -- identity had, or, where the account was not known, the one whose ID was generated then; and when
  -- the old session is dropped and the new one made, the account's identity is stored as that user's.
  pub callback-signed_in :
      (r : Request) (w : W)
      → (callback o r w).0.reply ≡ redirect "/dashboard"
      → ((r.state_cookie ≡ some r.state) × (is_empty r.state ≡ false))
        × (tok : String) × (u : GhUser) × (uid : String) × (c : Cookie) × (id : List ℕ) × (t : ℕ)
        × ((exchange_code o r.code w).0 ≡ ok tok)
        × ((fetch_user o tok (exchange_code o r.code w).1).0 ≡ ok u)
        × ((prev : GitHubIdentity) → identities w u.id ≡ some prev → uid ≡ prev.user_id)
        × (identities w u.id ≡ none
            → uid ≡ (o.id_gen.new_user_id (fetch_user o tok (exchange_code o r.code w).1).1).0)
        × ((w' : W) × (callback o r w ≡ renew_session o r.session uid w')
            × (g : GitHubIdentity) × (identities w' u.id ≡ some g)
            × (g.user_id ≡ uid))
        × (decode_cookie_value c.value ≡ some id)
        × (stored (callback o r w).1 id ≡ some (uid, t))
        × (front : List SetCookie) × ((callback o r w).0.cookies ≡ front ++ session_cookie c ∷ [])
  unfolding callback
  callback-signed_in r w done = elim (Bool-cases (state_matches r)) [
    | inr wrong ↦ absurd (ground arith)
    | inl right ↦ elim (Bool-cases (is_empty r.code)) [
      | inl missing ↦ absurd (ground arith)
      | inr there ↦
          let runs : callback o r w ≡ sign_in o r w = ground arith in
          let (tok, u, uid, w', exchanged, fetched, stays, made, account, ends) =
            signed_in r w (rw (← runs) done) in
          let all : callback o r w ≡ renew_session o r.session uid w' = runs ∙ ends in
          let (c, id, t, spelled, held, front, sent) = renewed r.session uid w' (rw (← all) done) in
          (
            state_matches-cases r right,
            tok,
            u,
            uid,
            c,
            id,
            t,
            exchanged,
            fetched,
            stays,
            made,
            (w', all, account.0, account.1, account.2),
            spelled,
            rw all held,
            front,
            rw all sent,
          )
    ]
  ]
