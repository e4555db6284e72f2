-- ===== src/Socket/Stream.antt =====
-- `StreamActor` of src/socket.rs. What the websocket's stream yields, and when, is an event; the
-- channel to the owner of the socket is third-party code, of type `C`.
pub mod Forwarding
use ezsockets.Base.{Bool, List, Option, Result, [], err, if◌then◌else◌, none, ok, some, ℕ, ◌∷◌}
use ezsockets.Error.{WsError}
use ezsockets.Socket.Message.{Message, RawMessage}
use ezsockets.Socket.Signal.{into_raw}

-- One `self.stream.next()`, at the time that `Instant::now()` gives afterwards.
pub data StreamEvent (M : Type 0) : Type 0 where
  item : ℕ → Result M WsError → StreamEvent M
  -- `None`.
  ended : StreamEvent M

-- Why the actor is gone: the stream is at its end, nobody receives its messages, or `M::into`
-- panicked.
pub data StreamEnd : Type 0 where
  finished disconnected panicked : StreamEnd

pub record StreamState (C : Type 0) : Type 0 where
  pub channel : C
  pub last_alive : ℕ

-- The match on a raw message; `none` is `continue`.
unfoldable pub forwarded : RawMessage → Option Message
forwarded (RawMessage.text s) = some (Message.text s)
forwarded (RawMessage.binary bytes) = some (Message.binary bytes)
forwarded (RawMessage.ping bytes) = none
forwarded (RawMessage.pong bytes) = none
forwarded (RawMessage.close frame) = some (Message.close frame)

-- `M::into`, where `none` is a panic, and the channel's `send`, which tells whether it failed.
module _ {C M : Type 0} (into_raw : M → Option RawMessage)
    (send : C → Result Message WsError → C × Bool) where
  forward : Option (Result Message WsError) → StreamState C → StreamState C × Option StreamEnd
  forward none st = (st, none)
  forward (some message) st =
      let (channel, lost) = send st.channel message in
      (record st { channel = channel }, if lost then some disconnected else none)

  on_item :
      ℕ → Result (Option RawMessage) WsError → StreamState C → StreamState C × Option StreamEnd
  unfolding forward forwarded
  on_item now (ok none) st = (st, some panicked)
  on_item now (ok (some raw)) st =
      forward (elim (forwarded raw) [ none ↦ none | some m ↦ some (ok m) ])
        (record st { last_alive = now })
  on_item now (err e) st = forward (some (err e)) (record st { last_alive = now })

  into_result : Result M WsError → Result (Option RawMessage) WsError
  into_result (ok m) = ok (into_raw m)
  into_result (err e) = err e

  -- One round of the loop.
  unfoldable pub stream_step : StreamEvent M → StreamState C → StreamState C × Option StreamEnd
  unfolding on_item into_result
  stream_step (item now r) st = on_item now (into_result r) st
  stream_step ended st = (st, some finished)

  -- `StreamActor::run` over the events so far; `none` while it waits for the next one.
  unfoldable pub stream_run :
      List (StreamEvent M) → StreamState C → StreamState C × Option StreamEnd
  stream_run [] st = (st, none)
  stream_run (e ∷ es) st =
      let (st', r) = stream_step e st in
      elim r [ none ↦ stream_run es st' | some end ↦ (st', some end) ]
