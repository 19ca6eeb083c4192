-- ===== src/Adapter/Ghapp/Webhooks/Replay.antt =====
-- A delivery is acted on at most once within the replay window.
use agentic_delegator.Prelude.{
  ℕ, ◌+◌, String, true, false, ◌≡◌, sym, ap, ◌∙◌, inl, inr, List, [], ◌∷◌, All, none, some, leb,
  Bool-cases, arith, eq_iff, eq_refl,
}
use agentic_delegator.Prelude.Text.{◌==◌, is_empty}
use agentic_delegator.Exec.{ok, Result-cases}
use agentic_delegator.Adapter.Ghapp.Webhooks.{
  WebhookHandler, Memory, Request, Seen, replay_window, forget_old, already_delivered, verify,
  handle_body, handle,
}

-- A sighting within the window stays, whatever is delivered.
already_delivered-keeps :
    (id other : String) (t now : ℕ) (seen : Seen)
    → seen id ≡ some t
    → leb now (t + replay_window) ≡ true
    → (already_delivered other now seen).1 id ≡ some t
unfolding already_delivered forget_old
already_delivered-keeps id other t now seen known recent =
    let fresh : forget_old now seen id ≡ some t = ground arith in
    elim (Bool-cases (id == other)) [
      | inl same ↦
          let again : forget_old now seen other ≡ some t =
            ap (forget_old now seen) (sym ((eq_iff id other).0 same)) ∙ fresh in
          ground arith
      | inr differs ↦ ground arith
    ]

-- A delivery that is known within the window is reported as such.
already_delivered-known :
    (id : String) (t now : ℕ) (seen : Seen)
    → is_empty id ≡ false
    → seen id ≡ some t
    → leb now (t + replay_window) ≡ true
    → (already_delivered id now seen).0 ≡ true
unfolding already_delivered forget_old
already_delivered-known id t now seen named known recent = ground arith

module _ {W : Type 0} (h : WebhookHandler W) where
  -- Requests handled one after another, each at its time.
  abbrev pub run : List (Request × ℕ) → Memory W → Memory W
  run [] m = m
  run (r ∷ rs) m = run rs (handle h r.0 r.1 m).1

  handle-keeps :
      (id : String) (t now : ℕ) (r : Request) (m : Memory W)
      → m.seen id ≡ some t
      → leb now (t + replay_window) ≡ true
      → (handle h r now m).1.seen id ≡ some t
  unfolding handle handle_body
  handle-keeps id t now r m known recent = elim (Result-cases r.body) [
    | inr (e, unread) ↦ ground arith
    | inl (body, read) ↦
        let still = already_delivered-keeps id r.delivery t now m.seen known recent in
        elim (Bool-cases (verify h r body)) [
          | inr unsigned ↦ ground arith
          | inl signed ↦ ground arith
        ]
  ]

  run-keeps :
      (id : String) (t : ℕ) (rs : List (Request × ℕ)) (m : Memory W)
      → m.seen id ≡ some t
      → All (λ r. leb r.1 (t + replay_window) ≡ true) rs
      → (run rs m).seen id ≡ some t
  run-keeps id t [] m known recent = known
  run-keeps id t (r ∷ rs) m known recent =
      run-keeps id t rs (handle h r.0 r.1 m).1 (handle-keeps id t r.1 r.0 m known recent.0) recent.1

  handle-known :
      (t now : ℕ) (r : Request) (m : Memory W)
      → is_empty r.delivery ≡ false
      → m.seen r.delivery ≡ some t
      → leb now (t + replay_window) ≡ true
      → (handle h r now m).1.world ≡ m.world
  unfolding handle handle_body
  handle-known t now r m named known recent = elim (Result-cases r.body) [
    | inr (e, unread) ↦ ground arith
    | inl (body, read) ↦
        let dup = already_delivered-known r.delivery t now m.seen named known recent in
        elim (Bool-cases (verify h r body)) [
          | inr unsigned ↦ ground arith
          | inl signed ↦ ground arith
        ]
  ]

  -- Once a request with a valid signature and a delivery ID not seen before was handled, no request
  -- with the same delivery ID changes the installations within the replay window, whatever other
  -- requests are handled in between.
  pub handle_once :
      (first again : Request) (body : String) (t now : ℕ) (between : List (Request × ℕ))
      (m : Memory W)
      → first.body ≡ ok body
      → verify h first body ≡ true
      → is_empty first.delivery ≡ false
      → m.seen first.delivery ≡ none
      → again.delivery ≡ first.delivery
      → All (λ r. leb r.1 (t + replay_window) ≡ true) between
      → leb now (t + replay_window) ≡ true
      → let later = run between (handle h first t m).1 in
        (handle h again now later).1.world ≡ later.world
  unfolding handle handle_body already_delivered forget_old
  handle_once first again body t now between m read signed named new same recent soon =
      let m1 : Memory W = (handle h first t m).1 in
      let later : Memory W = run between m1 in
      let known : m1.seen first.delivery ≡ some t = ground (arith, eq_refl first.delivery) in
      let still : later.seen first.delivery ≡ some t =
        run-keeps first.delivery t between m1 known recent in
      handle-known t now again later (ap is_empty same ∙ named) (ap later.seen same ∙ still) soon
