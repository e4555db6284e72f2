-- ===== src/Client/System.antt =====
-- A client among its handles (src/client.rs): the two channels from the handles to the task of
-- `connect_with`, and that task, attempt by attempt and event by event. The channels are queues that
-- fail once the task is gone; some handle is always there.
pub mod Fates
pub mod Following
pub mod Keeping
pub mod Moving
pub mod Posting
mod Examples
use ezsockets.Base.{
  Bool, List, Option, Result, [], err, false, if◌then◌else◌, none, ok, some, suc, true, ℕ, ◌++◌,
  ◌∷◌,
}
use ezsockets.Client.{ClientConfig, ClientExt, ClientSocket}
use ezsockets.Client.Actor.{ClientEvent, client_step}
use ezsockets.Client.Connect.{
  ClientState, Connected, Drained, closed_itself, died, drain, emptied, is_close, on_result,
}
use ezsockets.Error.{Error, WsError}
use ezsockets.Handle.{post}
use ezsockets.Server.Drain.{then}
use ezsockets.Session.Calls.{send_call}
use ezsockets.Session.System.{enqueue}
use ezsockets.Socket.Message.{Message}
use ezsockets.Socket.Signal.{InMessage, MessageSignal, Signals}

-- Where the task of `connect_with` is: in `client_connect` before an attempt, of which at most so many
-- are allowed, or while that one's `connect` is awaited; in the loop of `ClientActor::run` with its
-- socket; or at its end.
pub data ClientPhase (K : Type 0) : Type 0 where
  dialing trying : ℕ → ℕ → ClientPhase K
  linked : ClientSocket K → ClientPhase K
  over : Result (Unit {0}) Error → ClientPhase K

-- What happens in turn: a handle posts or calls, an attempt drains the channel, `connect` answers it,
-- or a branch of the actor's `select!` is taken; for a message, whether `socket.send` fails and what `await_sink_close`
-- returns then.
pub data ClientMove (A K : Type 0) : Type 0 where
  writes : Message → ClientMove A K
  asks : A → ClientMove A K
  drains : ClientMove A K
  dials : Result K WsError → ClientMove A K
  takes_message : Bool → Result (Unit {0}) WsError → ClientMove A K
  takes_call : ClientMove A K
  hears : Option (Result Message WsError) → ClientMove A K

pub record ClientSystem (E A K : Type 0) : Type 0 where
  -- No attempt to come is known beforehand: its `world` is empty.
  pub state : ClientState E K
  pub to_socket : List InMessage
  pub calls : List A
  pub phase : ClientPhase K
  -- The messages that a socket took, oldest first.
  pub handed : List InMessage

-- What the drain leaves in the channel: all that follows a close message.
unfoldable pub left_over : List InMessage → List InMessage
unfolding is_close
left_over [] = []
left_over (m ∷ ms) = let rest = left_over ms in if is_close m.message then ms else rest

module _ {E A K : Type 0} where
  unfoldable pub is_listening : ClientSystem E A K → Bool
  is_listening s = elim s.phase [ over r ↦ false | _ ↦ true ]

  -- `text`, `binary` and `close` of a handle; `none` is the panic of `unwrap`.
  unfoldable pub client_post :
      Message → ClientSystem E A K → Option (ClientSystem E A K × Result MessageSignal InMessage)
  unfolding is_listening
  client_post message s =
      elim (post (enqueue (is_listening s)) message s.to_socket s.state.signals) [
        | none ↦ none
        | some (queue, signals, r) ↦
            some (record s { to_socket = queue; state = record (s.state) { signals = signals } }, r)
      ]

  -- `Client::call`.
  unfoldable pub client_call : A → ClientSystem E A K → ClientSystem E A K
  unfolding is_listening
  client_call a s = record s { calls = (send_call (enqueue (is_listening s)) a s.calls).0 }

  -- Where a step leads; `phase` is where the task waits for the connector. At its end its receivers are
  -- dropped, which closes the channels but leaves in them what they hold, as a handle is there.
  unfoldable pub settle :
      ClientPhase K
      → ClientState E K × Option (Connected K)
      → ClientSystem E A K
      → ClientSystem E A K
  settle phase (st, none) s = record s { state = st; phase = phase }
  settle phase (st, some (ok (some socket))) s = record s { state = st; phase = linked socket }
  settle phase (st, some (ok none)) s = record s { state = st; phase = over (ok tt) }
  settle phase (st, some (err e)) s = record s { state = st; phase = over (err e) }

  unfoldable pub on_drain : ℕ → ℕ → Drained × Signals → ClientSystem E A K → ClientSystem E A K
  unfolding settle left_over
  on_drain max_attempts i (emptied, signals) s = record s {
    state = record (s.state) { signals = signals };
    to_socket = [];
    phase = trying max_attempts i;
  }
  on_drain max_attempts i (closed_itself, signals) s =
      settle (trying max_attempts i) (record (s.state) { signals = signals }, some (ok none))
        (record s { to_socket = left_over s.to_socket })
  on_drain max_attempts i (died, signals) s =
      settle (trying max_attempts i)
        (
          record (s.state) { signals = signals },
          some (err (Error.text "client died while trying to connect")),
        )
        s

  -- The start of an attempt of `client_connect`: it drains the channel, which has a sender.
  unfoldable pub drain_channel : ℕ → ℕ → ClientSystem E A K → ClientSystem E A K
  unfolding on_drain drain
  drain_channel max_attempts i s =
      on_drain max_attempts i (drain s.to_socket true s.state.signals) s

module _ {E A K U H : Type 0} (ext : ClientExt E A) (config : ClientConfig U H) where
  -- The answer of `connect`.
  unfoldable pub dial : ℕ → ℕ → Result K WsError → ClientSystem E A K → ClientSystem E A K
  unfolding settle on_result
  dial max_attempts i result s =
      settle (dialing max_attempts (suc i))
        (on_result ext config max_attempts i result
          (record (s.state) { connects = suc s.state.connects }))
        s

  -- A round of the loop, which may go on to connect again.
  unfoldable pub react : ClientEvent A → ClientSocket K → ClientSystem E A K → ClientSystem E A K
  unfolding settle
  react e socket s =
      settle (dialing config.max_reconnect_attempts 1) (client_step ext config e socket s.state) s

  unfoldable pub take_outgoing :
      List InMessage
      → Bool
      → Result (Unit {0}) WsError
      → ClientSocket K
      → ClientSystem E A K
      → ClientSystem E A K
  unfolding react
  take_outgoing [] fails result socket s = s
  take_outgoing (m ∷ queue) fails result socket s =
      react (ClientEvent.outgoing m fails result) socket
        (record s { to_socket = queue; handed = if fails then s.handed else s.handed ++ m ∷ [] })

  unfoldable pub take_client_call :
      List A → ClientSocket K → ClientSystem E A K → ClientSystem E A K
  unfolding react
  take_client_call [] socket s = s
  take_client_call (a ∷ queue) socket s =
      react (ClientEvent.called a) socket (record s { calls = queue })

  -- A move of the task at its phase; one that the phase does not know changes nothing.
  unfoldable pub client_move :
      ClientMove A K → ClientPhase K → ClientSystem E A K → ClientSystem E A K
  unfolding drain_channel dial take_outgoing take_client_call react client_post client_call
  client_move (writes message) phase s = elim (client_post message s) [
    | none ↦ s
    | some (s', r) ↦ s'
  ]
  client_move (asks a) phase s = client_call a s
  client_move drains (dialing max_attempts i) s = drain_channel max_attempts i s
  client_move (dials result) (trying max_attempts i) s = dial max_attempts i result s
  client_move (takes_message fails result) (linked socket) s =
      take_outgoing s.to_socket fails result socket s
  client_move takes_call (linked socket) s = take_client_call s.calls socket s
  client_move (hears message) (linked socket) s = react (ClientEvent.incoming message) socket s
  client_move _ _ s = s

  -- Any interleaving of them.
  unfoldable pub client_moves : List (ClientMove A K) → ClientSystem E A K → ClientSystem E A K
  client_moves [] s = s
  client_moves (m ∷ ms) s = client_moves ms (client_move m s.phase s)
