-- ===== src/Socket/Closing.antt =====
-- How a socket of src/socket.rs closes: the task that `Socket::new` spawns to wait for the end of the
-- stream, and `await_sink_close`.
use ezsockets.Base.{
  List, Option, Result, [], arith, err, none, ok, refl, some, true, ◌++◌, ◌∷◌, ◌≡◌,
}
use ezsockets.Error.{WsError, already_closed}
use ezsockets.Socket.Message.{RawMessage}
use ezsockets.Socket.Sink.{SinkEvent, SinkState, aborted, closed, received, sink_run}
use ezsockets.Socket.Sink.Delivery.{is_stopped, payloads, send_all, sink_run-send_all}

-- `sink_result_receiver`: once it is taken it is `none`. It yields the result of the sink actor, or
-- nothing if its sender is gone.
abbrev pub SinkReceiver : Type 0
SinkReceiver = Option (Option (Result (Unit {0}) WsError))

-- `unwrap_or(Err(WSError::AlreadyClosed))`.
unwrap_or_closed : Option (Result (Unit {0}) WsError) → Result (Unit {0}) WsError
unwrap_or_closed none = err already_closed
unwrap_or_closed (some r) = r

-- `Socket::await_sink_close`.
unfoldable pub await_sink_close : SinkReceiver → SinkReceiver × Result (Unit {0}) WsError
unfolding unwrap_or_closed
await_sink_close none = (none, err already_closed)
await_sink_close (some yielded) = (none, unwrap_or_closed yielded)

payloads-aborted : (es : List SinkEvent) → payloads (es ++ aborted ∷ []) ≡ payloads es
payloads-aborted [] = refl
payloads-aborted (received m ∷ es) = ground (arith, payloads-aborted es)
payloads-aborted (closed ∷ es) = refl
payloads-aborted (aborted ∷ es) = refl

is_stopped-aborted : (es : List SinkEvent) → is_stopped (es ++ aborted ∷ []) ≡ true
is_stopped-aborted [] = refl
is_stopped-aborted (received m ∷ es) = is_stopped-aborted es
is_stopped-aborted (closed ∷ es) = refl
is_stopped-aborted (aborted ∷ es) = refl

abbrev pub first_failure : Option WsError → Result (Unit {0}) WsError
first_failure none = ok tt
first_failure (some e) = err e

module _ {S M : Type 0} (from_raw : RawMessage → M)
    (sink_send : S → M → S × Result (Unit {0}) WsError) where
  -- The task, once the stream has ended: it aborts the sink actor after the events so far, and passes
  -- on what `run` returns.
  unfoldable pub close_socket : List SinkEvent → SinkState S → SinkState S × SinkReceiver
  unfolding unwrap_or_closed
  close_socket es st =
      let (st', r) = sink_run from_raw sink_send (es ++ aborted ∷ []) st in
      (st', some (some (unwrap_or_closed r)))

  -- When the stream has ended, the sink actor ends too, and whoever asks first learns what became of
  -- the messages that it took: success if the websocket took all of them, else the error of the first
  -- that it did not. Who asks again is told that the socket is closed already.
  pub await_sink_close-close_socket :
      (es : List SinkEvent) (st : SinkState S)
      → let (st', receiver) = close_socket es st in
        let (receiver', r) = await_sink_close receiver in
        let (sink, e) = send_all from_raw sink_send (payloads es) st.sink in
        (st'.sink ≡ sink)
        × (r ≡ first_failure e)
        × ((await_sink_close receiver').1 ≡ err already_closed)
  unfolding close_socket await_sink_close
  await_sink_close-close_socket es st = ground (
    arith,
    payloads-aborted es,
    is_stopped-aborted es,
    sink_run-send_all from_raw sink_send (es ++ aborted ∷ []) st,
  )
