-- ===== src/Client/System/Following.antt =====
-- What a step of a client's task does to the signals of its messages (src/client.rs).
use ezsockets.Base.{
  Among, Bool, List, Option, Result, [], ap, arith, err, if◌then◌else◌, inl, inr, none, ok, refl,
  some, subst, sym, true, ℕ, ◌≡◌, ◌≢◌, ◌≤◌, ◌⊎◌,
}
use ezsockets.Client.{ClientConfig, ClientExt, ClientSocket}
use ezsockets.Client.Actor.{
  ClientEvent, client_step, handle_close, handle_disconnect, handle_incoming_msg,
  handle_outgoing_msg,
}
use ezsockets.Client.Connect.{
  ClientState, Connected, Drained, client_connect, closed_itself, connect_from, died, drain,
  emptied, on_result,
}
use ezsockets.Client.System.{ClientPhase, ClientSystem, left_over, on_drain, settle, trying}
use ezsockets.Client.System.Fates.{
  Fate, Follows, IsBelow, allocated-drain, drain-Among, drain-keeps,
}
use ezsockets.Error.{Error, WsError}
use ezsockets.Session.Failing.{HasFailed}
use ezsockets.Socket.Signal.{InMessage, Signals, drop_message, drop_raw, into_raw}

-- The last of three fates, where the drain has met a close message.
unclosed :
    {X Y Z : Type 0} (d : Drained)
    → d ≢ closed_itself
    → X ⊎ Y ⊎ ((d ≡ closed_itself) × Z)
    → X ⊎ Y ⊎ ⊥
unclosed d n (inl x) = inl x
unclosed d n (inr (inl y)) = inr (inl y)
unclosed d n (inr (inr z)) = absurd (n z.0)

closed : {X Y Z : Type 0} (d : Drained) → X ⊎ Y ⊎ ((d ≡ closed_itself) × Z) → X ⊎ Y ⊎ Z
closed d (inl x) = inl x
closed d (inr (inl y)) = inr (inl y)
closed d (inr (inr z)) = inr (inr z.1)

weaken : {X Y Z : Type 0} → X ⊎ Y ⊎ ⊥ → X ⊎ Y ⊎ Z
weaken (inl x) = inl x
weaken (inr (inl y)) = inr (inl y)
weaken (inr (inr z)) = absurd z

module _ {E A K : Type 0} where
  -- A step that ends in `settle`.
  pub settle-Follows :
      (phase : ClientPhase K) (st : ClientState E K) (r : Option (Connected K))
      (s t : ClientSystem E A K)
      → s.state.signals.allocated ≤ st.signals.allocated
      → st.world ≡ []
      → ((m : InMessage)
          → IsBelow m s.state.signals.allocated
          → Fate s m
          → Among m t.handed ⊎ HasFailed m st.signals ⊎ Among m t.to_socket)
      → Follows s (settle phase (st, r) t)
  unfolding settle
  settle-Follows phase st none s t grows world fate = record {
    grows = grows;
    fate = fate;
    world = world;
  }
  settle-Follows phase st (some (ok (some socket))) s t grows world fate = record {
    grows = grows;
    fate = fate;
    world = world;
  }
  settle-Follows phase st (some (ok none)) s t grows world fate = record {
    grows = grows;
    fate = fate;
    world = world;
  }
  settle-Follows phase st (some (err e)) s t grows world fate = record {
    grows = grows;
    fate = fate;
    world = world;
  }

  -- A step that changes no signal and no queue of messages.
  pub same_Follows :
      (phase : ClientPhase K) (st : ClientState E K) (r : Option (Connected K)) (waiting : List A)
      (s : ClientSystem E A K)
      → st.signals ≡ s.state.signals
      → st.world ≡ []
      → Follows s (settle phase (st, r) (record s { calls = waiting }))
  same_Follows phase st r waiting s signals w =
      settle-Follows phase st r s (record s { calls = waiting })
        (omega (arith, ap (λ g. g.allocated) signals)) w
        (λ m b h.
          subst (λ g. Among m s.handed ⊎ HasFailed m g ⊎ Among m s.to_socket) (sym signals) h)

  -- The drain fails what it takes, and leaves what follows a close message.
  drained-Fate :
      (m : InMessage) (d : Drained × Signals) (s : ClientSystem E A K)
      → drain s.to_socket true s.state.signals ≡ d
      → Fate s m
      → Among m s.handed
        ⊎ HasFailed m d.1
        ⊎ ((d.0 ≡ closed_itself) × Among m (left_over s.to_socket))
  drained-Fate m d s e (inl h) = inl h
  drained-Fate m d s e (inr (inl h)) =
      inr (inl (subst (λ x. HasFailed m x.1) e (drain-keeps s.to_socket m s.state.signals h)))
  drained-Fate m d s e (inr (inr h)) = inr (
      subst (λ x. HasFailed m x.1 ⊎ ((x.0 ≡ closed_itself) × Among m (left_over s.to_socket))) e
        (drain-Among s.to_socket m s.state.signals h))

  drained_grows :
      (d : Drained × Signals) (s : ClientSystem E A K)
      → drain s.to_socket true s.state.signals ≡ d
      → s.state.signals.allocated ≤ d.1.allocated
  drained_grows d s e =
      subst (λ x. s.state.signals.allocated ≤ x.1.allocated) e
        (omega (arith, allocated-drain s.to_socket s.state.signals))

  pub on_drain-Follows :
      (max_attempts i : ℕ) (d : Drained × Signals) (s : ClientSystem E A K)
      → drain s.to_socket true s.state.signals ≡ d
      → s.state.world ≡ []
      → Follows s (on_drain max_attempts i d s)
  unfolding on_drain
  on_drain-Follows max_attempts i (emptied, signals) s e w = record {
    grows = drained_grows (emptied, signals) s e;
    fate = λ m b h. unclosed emptied (ground arith) (drained-Fate m (emptied, signals) s e h);
    world = w;
  }
  on_drain-Follows max_attempts i (closed_itself, signals) s e w =
      settle-Follows (trying max_attempts i) (record (s.state) { signals = signals })
        (some (ok none)) s (record s { to_socket = left_over s.to_socket })
        (drained_grows (closed_itself, signals) s e) w
        (λ m b h. closed closed_itself (drained-Fate m (closed_itself, signals) s e h))
  on_drain-Follows max_attempts i (died, signals) s e w =
      settle-Follows (trying max_attempts i) (record (s.state) { signals = signals })
        (some (err (Error.text "client died while trying to connect"))) s s
        (drained_grows (died, signals) s e) w
        (λ m b h. weaken (unclosed died (ground arith) (drained-Fate m (died, signals) s e h)))

module _ {E A K U H : Type 0} (ext : ClientExt E A) (config : ClientConfig U H) where
  pub result_signals :
      (max_attempts i : ℕ) (r : Result K WsError) (st : ClientState E K)
      → ((on_result ext config max_attempts i r st).0.signals ≡ st.signals)
        × ((on_result ext config max_attempts i r st).0.world ≡ st.world)
  unfolding on_result
  result_signals max_attempts i r st = ground arith

  -- With no attempt to come, an event other than a message of the user changes no signal.
  pub quiet_signals :
      (e : ClientEvent A) (socket : ClientSocket K) (st : ClientState E K)
      → ((m : InMessage) (fails : Bool) (r : Result (Unit {0}) WsError)
          → e ≢ ClientEvent.outgoing m fails r)
      → st.world ≡ []
      → ((client_step ext config e socket st).0.signals ≡ st.signals)
        × ((client_step ext config e socket st).0.world ≡ [])
  unfolding client_step handle_incoming_msg handle_close handle_disconnect client_connect
      connect_from
  quiet_signals (ClientEvent.outgoing m fails r) socket st q w = absurd (q m fails r refl)
  quiet_signals (ClientEvent.called a) socket st q w = ground (arith, w)
  quiet_signals (ClientEvent.incoming message) socket st q w = ground (arith, w)
  quiet_signals ClientEvent.hung_up socket st q w = ground (arith, w)

  pub outgoing_signals :
      (m : InMessage) (fails : Bool) (r : Result (Unit {0}) WsError) (socket : ClientSocket K)
      (st : ClientState E K)
      → st.world ≡ []
      → ((client_step ext config (ClientEvent.outgoing m fails r) socket st).0.signals
          ≡ (if fails then drop_message m st.signals else st.signals))
        × ((client_step ext config (ClientEvent.outgoing m fails r) socket st).0.world ≡ [])
  unfolding client_step handle_outgoing_msg handle_disconnect client_connect connect_from drop_raw
      drop_message into_raw
  outgoing_signals m fails r socket st w = ground (arith, w)
