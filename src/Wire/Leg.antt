-- ===== src/Wire/Leg.antt =====
-- From one side's sink actor to the channel of the other side's stream actor.
use ezsockets.Base.{
  Bool, List, Result, [], ap, arith, false, if◌then◌else◌, is_err, map, ok, refl, ◌++◌, ◌∙◌, ◌∷◌,
  ◌≡◌,
}
use ezsockets.Error.{WsError}
use ezsockets.Socket.Message.{Message, RawMessage}
use ezsockets.Socket.Sink.{SinkEvent, SinkState, sink_run}
use ezsockets.Socket.Sink.Delivery.{payloads, sink_run-send_all}
use ezsockets.Socket.Stream.{StreamEvent, StreamState, stream_run}
use ezsockets.Socket.Stream.Forwarding.{outputs, stream_run-push_all}
use ezsockets.Tungstenite.{TungsteniteMessage, from_tungstenite, to_tungstenite}
use ezsockets.Wire.{messages, taken, yielded}
use ezsockets.Wire.Carrying.{queued-push_all, written-send_all, yielded-NoPanic, yielded-outputs}

module _ {F S : Type 0} (sink_send : S → TungsteniteMessage F → S × Result (Unit {0}) WsError) where
  -- A websocket that never fails takes everything.
  pub taken_all :
      (ms : List RawMessage) (s : S)
      → ((s' : S) (m : TungsteniteMessage F) → (sink_send s' m).1 ≡ ok tt)
      → taken to_tungstenite sink_send ms s ≡ ms
  taken_all [] s h = refl
  taken_all (m ∷ ms) s h =
      ground (arith, h s (to_tungstenite m), taken_all ms (sink_send s (to_tungstenite m)).0 h)

module _ {F S : Type 0} (sink_send : S → TungsteniteMessage F → S × Result (Unit {0}) WsError)
    (written : S → List (TungsteniteMessage F))
    (writes : (s : S) (m : TungsteniteMessage F)
      → written (sink_send s m).0
        ≡ (if is_err (sink_send s m).1 then written s else written s ++ m ∷ []))
    {C : Type 0} (push : C → Result Message WsError → C × Bool)
    (queued : C → List (Result Message WsError))
    (pushes : (c : C) (m : Result Message WsError) → queued (push c m).0 ≡ queued c ++ m ∷ [])
    (takes : (c : C) (m : Result Message WsError) → (push c m).1 ≡ false) where
  -- After the sender's sink actor the new socket has written what it took.
  written-sink_run :
      (outbox : List SinkEvent) (sender : SinkState S)
      → written sender.sink ≡ []
      → written (sink_run to_tungstenite sink_send outbox sender).0.sink
        ≡ map to_tungstenite (taken to_tungstenite sink_send (payloads outbox) sender.sink)
  written-sink_run outbox sender fresh = ground (
    arith,
    sink_run-send_all to_tungstenite sink_send outbox sender,
    written-send_all to_tungstenite sink_send written writes (payloads outbox) sender.sink,
  )

  -- After the receiver's stream actor its channel, empty at first, holds the messages.
  queued-stream_run :
      (es : List (StreamEvent (TungsteniteMessage F))) (ms : List RawMessage) (st : StreamState C)
      → yielded es ≡ map ok (map to_tungstenite ms)
      → queued st.channel ≡ []
      → queued (stream_run from_tungstenite push es st).0.channel ≡ map ok (messages ms)
  queued-stream_run es ms st e empty = ground (
    arith,
    stream_run-push_all from_tungstenite push es st (yielded-NoPanic es ms e),
    yielded-outputs es ms e,
    queued-push_all push queued pushes takes (outputs from_tungstenite es) st.channel,
  )

  -- Over a connection that carries what is written, the channel gets the messages that the websocket took.
  pub sink_run-stream_run :
      (outbox : List SinkEvent) (sender : SinkState S)
      → written sender.sink ≡ []
      → (es : List (StreamEvent (TungsteniteMessage F))) (stream : StreamState C)
      → yielded es ≡ map ok (written (sink_run to_tungstenite sink_send outbox sender).0.sink)
      → queued stream.channel ≡ []
      → queued (stream_run from_tungstenite push es stream).0.channel
        ≡ map ok (messages (taken to_tungstenite sink_send (payloads outbox) sender.sink))
  sink_run-stream_run outbox sender fresh es stream carried empty =
      let ms = taken to_tungstenite sink_send (payloads outbox) sender.sink in
      queued-stream_run es ms stream (carried ∙ ap (map ok) (written-sink_run outbox sender fresh))
        empty
