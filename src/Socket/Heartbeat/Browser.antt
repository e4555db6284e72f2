-- ===== src/Socket/Heartbeat/Browser.antt =====
-- `socket_heartbeat` of src/socket.rs as it is compiled for wasm: each round makes a sleep of its own.
use ezsockets.Base.{
  List, Option, Option-cases, [], arith, inl, inr, none, some, ℕ, ◌+◌, ◌↔◌, ◌∷◌, ◌≡◌,
}
use ezsockets.Socket.Heartbeat.{
  Beat, HeartbeatEvent, SocketConfig, handle_heartbeat_sleep_elapsed, slept, socket_heartbeat,
}
use ezsockets.Socket.Signal.{InRawMessage}

module _ {C : Type 0} (channel_send : C → InRawMessage → C × Option InRawMessage) where
  -- Over the events so far, with the duration of its sleep; `none` once the loop is left.
  unfoldable pub wasm_heartbeat :
      SocketConfig → List HeartbeatEvent → ℕ → Beat C → Beat C × Option ℕ
  wasm_heartbeat config [] sleep_duration b = (b, some sleep_duration)
  wasm_heartbeat config (HeartbeatEvent.aborted ∷ es) sleep_duration b = (b, none)
  wasm_heartbeat config (slept now last_alive timestamp ∷ es) sleep_duration b =
      let (b', next) =
        handle_heartbeat_sleep_elapsed channel_send config last_alive now timestamp b in
      elim next [ none ↦ (b', none) | some d ↦ wasm_heartbeat config es d b' ]

  -- The two variants of the loop do the same: at the same events they send the same messages, and one
  -- has left its loop exactly if the other has.
  pub wasm_heartbeat_same :
      (config : SocketConfig) (es : List HeartbeatEvent) (deadline sleep_duration : ℕ) (b : Beat C)
      → let (b1, d1) = socket_heartbeat channel_send config es deadline b in
        let (b2, d2) = wasm_heartbeat config es sleep_duration b in
        (b1 ≡ b2) × ((d1 ≡ none) ↔ (d2 ≡ none))
  unfolding wasm_heartbeat socket_heartbeat
  wasm_heartbeat_same config [] deadline sleep_duration b = ground arith
  wasm_heartbeat_same config (HeartbeatEvent.aborted ∷ es) deadline sleep_duration b = ground arith
  wasm_heartbeat_same config (slept now last_alive timestamp ∷ es) deadline sleep_duration b =
      let (b', next) =
        handle_heartbeat_sleep_elapsed channel_send config last_alive now timestamp b in
      elim (Option-cases
        (handle_heartbeat_sleep_elapsed channel_send config last_alive now timestamp b).1) [
          | inl e ↦ ground arith
          | inr (d, e) ↦ ground (arith, wasm_heartbeat_same config es (now + d) d b')
        ]
