-- ===== src/Socket/Heartbeat/Liveness.antt =====
-- The keep-alive of src/socket.rs.
use ezsockets.Base.{
  List, Option, Option-cases, [], arith, false, inl, inr, length, max, none, some, ℕ, ◌*◌, ◌+◌, ◌-◌,
  ◌<◌, ◌∷◌, ◌≡◌, ◌≤◌, ◌⊎◌,
}
use ezsockets.Socket.Heartbeat.{
  Beat, HeartbeatEvent, SocketConfig, aborted, handle_heartbeat_sleep_elapsed, inactive, send_new,
  slept, socket_heartbeat,
}
use ezsockets.Socket.Message.{RawMessage}
use ezsockets.Socket.Signal.{InRawMessage, new_raw}

abbrev pub OnSome : Option ℕ → (ℕ → Type 0) → Type 0
OnSome none P = Unit {0}
OnSome (some d) P = P d

module _ {C : Type 0} (channel_send : C → InRawMessage → C × Option InRawMessage)
    (config : SocketConfig) where
  -- With a heartbeat above 0, a round after which the loop goes on found the partner within its
  -- timeout, and its next sleep takes time and ends no later than a heartbeat after the present, or
  -- after the last sign of life if that is later.
  pub heartbeat_sleep_bounds :
      (last_alive now timestamp d : ℕ) (b : Beat C)
      → 0 < config.heartbeat
      → (handle_heartbeat_sleep_elapsed channel_send config last_alive now timestamp b).1 ≡ some d
      → (0 < d)
        × (now + d ≤ max now last_alive + config.heartbeat)
        × (now - last_alive ≤ config.timeout)
  unfolding handle_heartbeat_sleep_elapsed
  heartbeat_sleep_bounds last_alive now timestamp d b h e = ground arith

  -- The partner is silent since `last_alive`, and each sleep ends no earlier than its deadline.
  abbrev pub Silent : ℕ → List HeartbeatEvent → ℕ → Beat C → Type 0
  Silent last_alive [] deadline b = Unit {0}
  Silent last_alive (aborted ∷ es) deadline b = Unit {0}
  Silent last_alive (slept now alive timestamp ∷ es) deadline b =
      (alive ≡ last_alive)
      × (deadline ≤ now)
      × OnSome (handle_heartbeat_sleep_elapsed channel_send config alive now timestamp b).1 (λ d.
        Silent last_alive es (now + d)
          (handle_heartbeat_sleep_elapsed channel_send config alive now timestamp b).0)

  -- One round in a silence: the next deadline.
  next_deadline :
      (last_alive now timestamp d : ℕ) (b : Beat C)
      → last_alive ≤ now
      → (handle_heartbeat_sleep_elapsed channel_send config last_alive now timestamp b).1 ≡ some d
      → (last_alive + config.heartbeat ≤ now + d)
        × (now + d ≤ last_alive + config.timeout + config.heartbeat)
        × (last_alive + config.heartbeat ≤ now → d ≡ config.heartbeat)
  unfolding handle_heartbeat_sleep_elapsed
  next_deadline last_alive now timestamp d b le e = ground arith

  -- A round in a silence after which the loop goes on.
  one_round :
      (es : List HeartbeatEvent) (last_alive deadline now alive timestamp end : ℕ) (b : Beat C)
      → last_alive ≤ deadline
      → Silent last_alive (slept now alive timestamp ∷ es) deadline b
      → (socket_heartbeat channel_send config (slept now alive timestamp ∷ es) deadline b).1
        ≡ some end
      → (d : ℕ) × (b' : Beat C) × (last_alive + config.heartbeat ≤ now + d)
        × (now + d ≤ last_alive + config.timeout + config.heartbeat)
        × (last_alive + config.heartbeat ≤ deadline → deadline + config.heartbeat ≤ now + d)
        × Silent last_alive es (now + d) b'
        × ((socket_heartbeat channel_send config es (now + d) b').1 ≡ some end)
  unfolding socket_heartbeat
  one_round es last_alive deadline now alive timestamp end b le s e =
      let b' = (handle_heartbeat_sleep_elapsed channel_send config last_alive now timestamp b).0 in
      elim (Option-cases
        (handle_heartbeat_sleep_elapsed channel_send config last_alive now timestamp b).1) [
          | inl stop ↦ absurd (ground arith)
          | inr (d, go) ↦
              let next = next_deadline last_alive now timestamp d b (omega arith) go in
              (d, b', next.0, next.1, omega arith, (rw (s.0, go) at (s.2)), ground arith)
        ]

  -- From the first heartbeat on each round takes a heartbeat, and the last one starts before the
  -- timeout.
  rounds_below :
      (es : List HeartbeatEvent) (last_alive deadline end : ℕ) (b : Beat C)
      → last_alive + config.heartbeat ≤ deadline
      → deadline ≤ last_alive + config.timeout + config.heartbeat
      → Silent last_alive es deadline b
      → (socket_heartbeat channel_send config es deadline b).1 ≡ some end
      → deadline + length es * config.heartbeat ≤ last_alive + config.timeout + config.heartbeat
  unfolding socket_heartbeat
  rounds_below [] last_alive deadline end b lo hi s e = omega arith
  rounds_below (aborted ∷ es) last_alive deadline end b lo hi s e = cc
  rounds_below (slept now alive timestamp ∷ es) last_alive deadline end b lo hi s e =
      let (d, b', p, q, r, s', e') =
        one_round es last_alive deadline now alive timestamp end b (omega arith) s e in
      omega (arith, rounds_below es last_alive (now + d) end b' p q s' e', r lo)

  rounds_bounded :
      (es : List HeartbeatEvent) (last_alive deadline end : ℕ) (b : Beat C)
      → last_alive ≤ deadline
      → Silent last_alive es deadline b
      → (socket_heartbeat channel_send config es deadline b).1 ≡ some end
      → length es * config.heartbeat ≤ config.timeout + config.heartbeat
  unfolding socket_heartbeat
  rounds_bounded [] last_alive deadline end b le s e = omega arith
  rounds_bounded (aborted ∷ es) last_alive deadline end b le s e = cc
  rounds_bounded (slept now alive timestamp ∷ es) last_alive deadline end b le s e =
      let (d, b', p, q, r, s', e') =
        one_round es last_alive deadline now alive timestamp end b le s e in
      omega (arith, rounds_below es last_alive (now + d) end b' p q s' e')

  -- A partner that falls silent is given up: when it gave its last sign of life before the first
  -- deadline, the sleeps never end early and the rounds, at a heartbeat each, exceed the timeout by
  -- more than a heartbeat, the heartbeat loop is over, however late the sleeps ended and however the
  -- pings fared.
  pub socket_heartbeat-ends :
      (es : List HeartbeatEvent) (last_alive deadline : ℕ) (b : Beat C)
      → last_alive ≤ deadline
      → Silent last_alive es deadline b
      → config.timeout + config.heartbeat < length es * config.heartbeat
      → (socket_heartbeat channel_send config es deadline b).1 ≡ none
  socket_heartbeat-ends es last_alive deadline b le s h =
      elim (Option-cases (socket_heartbeat channel_send config es deadline b).1) [
        | inl e ↦ e
        | inr (end, e) ↦ absurd (omega (arith, rounds_bounded es last_alive deadline end b le s e))
      ]

  send_new_taken :
      (message : RawMessage) (b : Beat C)
      → ((c : C) (m : InRawMessage) → (channel_send c m).1 ≡ none)
      → let (b', lost) = send_new channel_send message b in
        (b'.channel ≡ (channel_send b.channel (new_raw message b.signals).0).0) × (lost ≡ false)
  unfolding send_new
  send_new_taken message b takes = ground (arith, takes b.channel (new_raw message b.signals).0)

  -- With a channel that takes every message, a round does exactly one of three things. Past the
  -- timeout it sends the close frame for an inactive partner and ends the loop; before a heartbeat has
  -- passed it sends nothing; else it sends the configured ping.
  pub heartbeat_branches :
      (last_alive now timestamp : ℕ) (b : Beat C)
      → ((c : C) (m : InRawMessage) → (channel_send c m).1 ≡ none)
      → let (b', next) =
          handle_heartbeat_sleep_elapsed channel_send config last_alive now timestamp b in
        let queued = λ (m : RawMessage). (channel_send b.channel (new_raw m b.signals).0).0 in
        ((config.timeout < now - last_alive) × (b'.channel ≡ queued inactive) × (next ≡ none))
        ⊎ ((now - last_alive ≤ config.timeout)
            × (now - last_alive < config.heartbeat)
            × (b' ≡ b)
            × (next ≡ some (config.heartbeat - (now - last_alive))))
        ⊎ ((now - last_alive ≤ config.timeout)
            × (config.heartbeat ≤ now - last_alive)
            × (b'.channel ≡ queued (config.heartbeat_ping_msg_fn timestamp))
            × (next ≡ some config.heartbeat))
  unfolding handle_heartbeat_sleep_elapsed
  heartbeat_branches last_alive now timestamp b takes = ground (
    arith,
    send_new_taken inactive b takes,
    send_new_taken (config.heartbeat_ping_msg_fn timestamp) b takes,
  )
