-- ===== src/Adapter/Ghapp/Webhooks.antt =====
-- core/adapter/ghapp/webhooks.go. The hexadecimal decoding, the MAC and the reading of the JSON
-- body are parameters; the store of installations is a world.
pub mod Replay
use Prim.Native.String.{len, slice}
use agentic_delegator.Prelude.{
  ℕ, ◌-◌, String, Bool, true, false, ◌&&◌, ◌||◌, not, Option, none, some, is_some, ltb,
  if◌then◌else◌,
}
use agentic_delegator.Prelude.Int.{ℤ}
use agentic_delegator.Prelude.Text.{◌==◌, is_empty}
use agentic_delegator.Exec.{Exec, Result, ok, err}

-- Ten minutes in nanoseconds.
abbrev pub replay_window : ℕ
replay_window = 600000000000

-- h.seen: from a delivery to the time when it was first seen
abbrev pub Seen : Type 0
Seen = String → Option ℕ

abbrev pub keep_recent : ℕ → Option ℕ → Option ℕ
keep_recent now none = none
keep_recent now (some t) = if ltb replay_window (now - t) then none else some t

-- The loop that deletes the entries that are too old.
unfoldable pub forget_old : ℕ → Seen → Seen
forget_old now seen k = keep_recent now (seen k)

unfoldable pub already_delivered : String → ℕ → Seen → Bool × Seen
already_delivered id now seen =
    if is_empty id
    then (false, seen)
    else let kept = forget_old now seen in
      if is_some (kept id) then (true, kept) else (false, λ k. if k == id then some now else kept k)

-- The headers that are read, and the body, or the error of its reading.
pub record Request : Type 0 where
  pub signature : String
  pub delivery : String
  pub event : String
  pub body : Result String

-- The fields of the payload; those that are missing are empty.
pub record Payload : Type 0 where
  pub action : String
  pub installation_id : ℤ

pub record WebhookHandler (W : Type 0) : Type 0 where
  pub decode_hex : String → Option String
  pub mac : String → String
  pub unmarshal : String → Payload
  pub delete_installation : ℤ → Exec W (Unit {0})

-- The handler's memory, and the world that it acts on.
pub record Memory (W : Type 0) : Type 0 where
  pub seen : Seen
  pub world : W

module _ {W : Type 0} (h : WebhookHandler W) where
  abbrev equals : String → Option String → Bool
  equals sum none = false
  equals sum (some want) = sum == want

  unfoldable pub verify : Request → String → Bool
  verify r body =
      let sig = r.signature in
      if ltb (len sig) 7 || not (slice sig 0 7 == "sha256=")
      then false
      else equals (h.mac body) (h.decode_hex (slice sig 7 (len sig)))

  -- The switch on the event.
  unfoldable pub act : Request → String → W → W
  act r body w =
      let payload = h.unmarshal body in
      if r.event == "installation" && payload.action == "deleted"
      then (h.delete_installation payload.installation_id w).1
      else w

  unfoldable pub handle_body : Request → String → ℕ → Memory W → ℕ × Memory W
  handle_body r body now m =
      if not (verify r body)
      then (401, m)
      else let answer = already_delivered r.delivery now m.seen in
        if answer.0
        then (200, record m { seen = answer.1 })
        else (200, record { seen = answer.1; world = act r body m.world })

  -- The status that is written.
  unfoldable pub handle : Request → ℕ → Memory W → ℕ × Memory W
  handle r now m = on_body r.body
    where
      on_body : Result String → ℕ × Memory W
      on_body (ok body) = handle_body r body now m
      on_body (err e) = (400, m)
