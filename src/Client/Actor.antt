-- ===== src/Client/Actor.antt =====
-- `ClientActor` and `connect_with` of src/client.rs. The channels, the socket's own channel and the
-- result of its sink actor come from outside, as the events of the loop's `select!`.
pub mod Closing
pub mod Reconnecting
use ezsockets.Base.{
  Bool, List, Option, Result, [], err, false, if◌then◌else◌, none, ok, some, true, ℕ, ◌++◌, ◌∷◌,
}
use ezsockets.Client.{ClientCloseMode, ClientConfig, ClientExt, ClientSocket, reconnect}
use ezsockets.Client.Connect.{ClientState, Connected, client_connect, is_close}
use ezsockets.Error.{Error, WsError}
use ezsockets.Socket.Heartbeat.{slept}
use ezsockets.Socket.Message.{CloseFrame, Message}
use ezsockets.Socket.Signal.{InMessage, drop_raw, into_raw}

-- What one `select!` of `ClientActor::run` yields.
pub data ClientEvent (A : Type 0) : Type 0 where
  -- A message of the user, whether `socket.send` fails, and what `await_sink_close` returns if so.
  outgoing : InMessage → Bool → Result (Unit {0}) WsError → ClientEvent A
  called : A → ClientEvent A
  incoming : Option (Result Message WsError) → ClientEvent A
  -- `Err` from one of the client's two channels.
  hung_up : ClientEvent A

-- How far `run` got: it waits with its socket, it waits for the connector, or it returned.
pub data Progress (K : Type 0) : Type 0 where
  running : ClientSocket K → Progress K
  connecting : Progress K
  returned : Result (Unit {0}) Error → Progress K

-- The sink's errors after which the client asks `on_disconnect`: the connection is closed, or the
-- network failed.
unfoldable pub is_disconnect : WsError → Bool
is_disconnect WsError.send_after_closing = true
is_disconnect WsError.connection_closed = true
is_disconnect WsError.already_closed = true
is_disconnect WsError.io = true
is_disconnect WsError.tls = true
is_disconnect (WsError.other n) = false

module _ {E A K U H : Type 0} (ext : ClientExt E A) (config : ClientConfig U H) where
  -- The match on a `ClientCloseMode`, before which `?` returns an error; `pause` is the sleep.
  on_mode :
      List ℕ
      → ClientState E K
      → E × Result ClientCloseMode Error
      → ClientState E K × Option (Connected K)
  unfolding client_connect
  on_mode pause st (extension, err e) = (record st { extension = extension }, some (err e))
  on_mode pause st (extension, ok ClientCloseMode.close) =
      (record st { extension = extension }, some (ok none))
  on_mode pause st (extension, ok reconnect) =
      client_connect ext config config.max_reconnect_attempts
        (record st { extension = extension; slept = st.slept ++ pause })

  unfoldable pub handle_close :
      Option CloseFrame → ClientState E K → ClientState E K × Option (Connected K)
  unfolding on_mode
  handle_close f st = on_mode (config.reconnect_interval ∷ []) st (ext.on_close st.extension f)

  unfoldable pub handle_disconnect : ClientState E K → ClientState E K × Option (Connected K)
  unfolding on_mode
  handle_disconnect st = on_mode [] st (ext.on_disconnect st.extension)

  -- The end of `handle_outgoing_msg`.
  outgoing_end : Bool → ClientSocket K → ClientState E K → ClientState E K × Option (Connected K)
  outgoing_end closed_self socket st = (st, some (ok (if closed_self then none else some socket)))

  -- The match on the sink's result after a failed send.
  on_sink_result :
      Bool
      → Result (Unit {0}) WsError
      → ClientSocket K
      → ClientState E K
      → ClientState E K × Option (Connected K)
  unfolding outgoing_end handle_disconnect is_disconnect
  on_sink_result closed_self (ok _) socket st = outgoing_end closed_self socket st
  on_sink_result true (err e) socket st = outgoing_end true socket st
  on_sink_result false (err e) socket st =
      let reconnection = handle_disconnect st in
      if is_disconnect e
      then reconnection
      else (st, some (err (Error.text "unexpected sink error, aborting client actor")))

  -- `handle_outgoing_msg`; a message that the socket does not take is dropped.
  unfoldable pub handle_outgoing_msg :
      InMessage
      → Bool
      → Result (Unit {0}) WsError
      → ClientSocket K
      → ClientState E K
      → ClientState E K × Option (Connected K)
  unfolding on_sink_result outgoing_end into_raw drop_raw is_close
  handle_outgoing_msg inmessage send_fails result socket st =
      let closed_self = is_close inmessage.message in
      let (raw, signals) = into_raw inmessage st.signals in
      if send_fails
      then on_sink_result closed_self result socket (record st { signals = drop_raw raw signals })
      else outgoing_end closed_self socket (record st { signals = signals })

  -- `handler(…).await?`, after which the client keeps its socket.
  handled :
      ClientSocket K
      → ClientState E K
      → E × Result (Unit {0}) Error
      → ClientState E K × Option (Connected K)
  handled socket st (extension, ok _) =
      (record st { extension = extension }, some (ok (some socket)))
  handled socket st (extension, err e) = (record st { extension = extension }, some (err e))

  unfoldable pub handle_incoming_msg :
      Option (Result Message WsError)
      → ClientSocket K
      → ClientState E K
      → ClientState E K × Option (Connected K)
  unfolding handled handle_close handle_disconnect
  handle_incoming_msg (some (ok (Message.text s))) socket st =
      handled socket st (ext.on_text st.extension s)
  handle_incoming_msg (some (ok (Message.binary bytes))) socket st =
      handled socket st (ext.on_binary st.extension bytes)
  handle_incoming_msg (some (ok (Message.close f))) socket st = handle_close f st
  handle_incoming_msg (some (err e)) socket st = handle_disconnect st
  handle_incoming_msg none socket st = handle_disconnect st

  -- One round of the loop: the socket to go on with, or `none` to return `Ok(())`.
  unfoldable pub client_step :
      ClientEvent A → ClientSocket K → ClientState E K → ClientState E K × Option (Connected K)
  unfolding handle_outgoing_msg handle_incoming_msg handled
  client_step (outgoing inmessage send_fails result) socket st =
      handle_outgoing_msg inmessage send_fails result socket st
  client_step (called call) socket st = handled socket st (ext.on_call st.extension call)
  client_step (incoming message) socket st = handle_incoming_msg message socket st
  client_step hung_up socket st = (st, some (ok none))

  -- `ClientActor::run` over the events so far.
  unfoldable pub client_run :
      List (ClientEvent A) → ClientSocket K → ClientState E K → ClientState E K × Progress K
  client_run [] socket st = (st, running socket)
  client_run (e ∷ es) socket st =
      let (st', r) = client_step e socket st in
      elim r [
        | none ↦ (st', connecting)
        | some (ok (some socket')) ↦ client_run es socket' st'
        | some (ok none) ↦ (st', returned (ok tt))
        | some (err e) ↦ (st', returned (err e))
      ]

  -- The task of `connect_with`.
  unfoldable pub connect_with :
      List (ClientEvent A) → ClientState E K → ClientState E K × Progress K
  unfolding client_run
  connect_with es st =
      let (st', r) = client_connect ext config config.max_initial_connect_attempts st in
      elim r [
        | none ↦ (st', connecting)
        | some (ok (some socket)) ↦ client_run es socket st'
        | some (ok none) ↦ (st', returned (ok tt))
        | some (err e) ↦ (st', returned (err e))
      ]
