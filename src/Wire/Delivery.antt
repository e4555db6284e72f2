-- ===== src/Wire/Delivery.antt =====
-- What one side sends is what the handlers of the other side's session get.
use ezsockets.Base.{
  Bool, List, Option, Result, [], ap, false, if◌then◌else◌, is_err, map, none, ok, some, ◌++◌, ◌∙◌,
  ◌∷◌, ◌≡◌,
}
use ezsockets.Error.{WsError}
use ezsockets.Session.{Branch, SessionExt, SessionState, session_run}
use ezsockets.Session.Handlers.{ending, requests, serve_all, session_run-serve_all}
use ezsockets.Socket.Message.{Message}
use ezsockets.Socket.Signal.{InRawMessage}
use ezsockets.Socket.Sink.{SinkEvent, SinkState, sink_run}
use ezsockets.Socket.Sink.Delivery.{payloads}
use ezsockets.Socket.Stream.{StreamEvent, StreamState, stream_run}
use ezsockets.Tungstenite.{TungsteniteMessage, from_tungstenite, to_tungstenite}
use ezsockets.Wire.{
  ClosesNothing, before_close, close_of, conveyed, incomings, messages, taken, yielded,
}
use ezsockets.Wire.Carrying.{incomings-requests}
use ezsockets.Wire.Leg.{sink_run-stream_run}

module _ {F S : Type 0} (sink_send : S → TungsteniteMessage F → S × Result (Unit {0}) WsError)
    (written : S → List (TungsteniteMessage F))
    (writes : (s : S) (m : TungsteniteMessage F)
      → written (sink_send s m).0
        ≡ (if is_err (sink_send s m).1 then written s else written s ++ m ∷ []))
    {C : Type 0} (push : C → Result Message WsError → C × Bool)
    (queued : C → List (Result Message WsError))
    (pushes : (c : C) (m : Result Message WsError) → queued (push c m).0 ≡ queued c ++ m ∷ [])
    (takes : (c : C) (m : Result Message WsError) → (push c m).1 ≡ false) {E A K : Type 0}
    (ext : SessionExt E A) (channel_send : K → InRawMessage → K × Option InRawMessage)
    (sends : (c : K) (m : InRawMessage) → (channel_send c m).1 ≡ none) where
  -- End to end, over channels that keep everything and a new connection that carries exactly what is
  -- written: if the receiving session reads all that comes and closes nothing itself, the requests to
  -- its handlers are, between whatever calls, exactly the texts and the binaries that the sender's
  -- websocket took before the first close message, in the order in which they were sent. The session
  -- is run through these requests, up to the first handler that fails; it ends with that failure, else
  -- with the very frame of the sender's first close message, its code and reason included, and goes on
  -- if there is none.
  pub sink_run-session_run :
      (outbox : List SinkEvent) (sender : SinkState S)
      → written sender.sink ≡ []
      → (es : List (StreamEvent (TungsteniteMessage F))) (stream : StreamState C)
      → yielded es ≡ map ok (written (sink_run to_tungstenite sink_send outbox sender).0.sink)
      → queued stream.channel ≡ []
      → (bs : List (Branch A)) (session : SessionState E K)
      → incomings bs ≡ map some (queued (stream_run from_tungstenite push es stream).0.channel)
      → ClosesNothing bs
      → let ms = messages (taken to_tungstenite sink_send (payloads outbox) sender.sink) in
        let (session', r) = session_run ext channel_send bs session in
        let (e, failure) = serve_all ext channel_send (requests bs) session.extension in
        (conveyed (requests bs) ≡ before_close ms)
        × (session'.extension ≡ e)
        × (r ≡ ending ext channel_send failure (close_of ms))
  sink_run-session_run outbox sender fresh es stream carried empty bs session handed quiet =
      let ms = messages (taken to_tungstenite sink_send (payloads outbox) sender.sink) in
      let arrives =
        sink_run-stream_run sink_send written writes push queued pushes takes outbox sender fresh es
          stream carried empty in
      let (asked, closes) = incomings-requests bs ms (handed ∙ ap (map some) arrives) quiet in
      let (state, result) = session_run-serve_all ext channel_send bs session sends in
      let failure = (serve_all ext channel_send (requests bs) session.extension).1 in
      (asked, state, result ∙ ap (ending ext channel_send failure) closes)
