-- ===== src/Echo/Trip.antt =====
-- What a client of the graceful echo server reads.
use ezsockets.Base.{
  Bool, List, Option, Result, [], ap, arith, false, if◌then◌else◌, is_err, map, none, ok, refl,
  some, true, ◌++◌, ◌∙◌, ◌∷◌, ◌≡◌,
}
use ezsockets.Echo.{graceful_ext}
use ezsockets.Echo.Echoing.{serves_graceful}
use ezsockets.Error.{WsError}
use ezsockets.Session.{Branch, SessionState, session_run}
use ezsockets.Session.Handlers.{Request, requests, session_run-serve_all}
use ezsockets.Session.Requests.{texts_of}
use ezsockets.Socket.Message.{Message, Utf8Bytes, to_raw}
use ezsockets.Socket.Signal.{InRawMessage}
use ezsockets.Socket.Sink.{SinkEvent, SinkState, sink_run}
use ezsockets.Socket.Sink.Delivery.{payloads}
use ezsockets.Socket.Stream.{StreamEvent, StreamState, stream_run}
use ezsockets.Tungstenite.{TungsteniteMessage, from_tungstenite, to_tungstenite}
use ezsockets.Wire.{
  ClosesNothing, before_close, close_of, conveyed, incomings, messages, outgoings, raws, yielded,
}
use ezsockets.Wire.Carrying.{incomings-requests}
use ezsockets.Wire.Leg.{sink_run-stream_run, taken_all}
use ezsockets.Wire.Sending.{raws-session_run}

abbrev pub texts : List Message → List Utf8Bytes
texts [] = []
texts (Message.text t ∷ ms) = t ∷ texts ms
texts (_ ∷ ms) = texts ms

texts-conveyed : {A : Type 0} (rs : List (Request A)) → texts (conveyed rs) ≡ texts_of rs
texts-conveyed [] = refl
texts-conveyed (Request.text t ∷ rs) = ap (λ ts. t ∷ ts) (texts-conveyed rs)
texts-conveyed (Request.binary bytes ∷ rs) = texts-conveyed rs
texts-conveyed (Request.call a ∷ rs) = texts-conveyed rs

before_close_all : (ms : List Message) → close_of ms ≡ none → before_close ms ≡ ms
before_close_all [] h = refl
before_close_all (Message.text t ∷ ms) h = ap (λ l. Message.text t ∷ l) (before_close_all ms h)
before_close_all (Message.binary bytes ∷ ms) h =
    ap (λ l. Message.binary bytes ∷ l) (before_close_all ms h)
before_close_all (Message.close f ∷ ms) h = ground (arith, h)

-- Who sends texts only closes nothing, and they arrive as they are.
outgoings-ClosesNothing :
    {A : Type 0} (bs : List (Branch A)) (ts : List Utf8Bytes)
    → outgoings bs ≡ map Message.text ts
    → ClosesNothing bs
outgoings-ClosesNothing [] ts e = tt
outgoings-ClosesNothing (Branch.outgoing m ∷ bs) [] e =
    ground (arith, e, outgoings-ClosesNothing bs [])
outgoings-ClosesNothing (Branch.outgoing m ∷ bs) (t ∷ ts) e =
    ground (arith, e, outgoings-ClosesNothing bs (t ∷ ts), outgoings-ClosesNothing bs ts)
outgoings-ClosesNothing (Branch.called a ∷ bs) ts e = outgoings-ClosesNothing bs ts e
outgoings-ClosesNothing (Branch.incoming r ∷ bs) ts e = outgoings-ClosesNothing bs ts e

messages-to_raw :
    (ts : List Utf8Bytes) → messages (map to_raw (map Message.text ts)) ≡ map Message.text ts
unfolding to_raw
messages-to_raw [] = refl
messages-to_raw (t ∷ ts) = ap (λ l. Message.text t ∷ l) (messages-to_raw ts)

module _ {F S : Type 0} (sink_send : S → TungsteniteMessage F → S × Result (Unit {0}) WsError)
    (written : S → List (TungsteniteMessage F))
    (works : (s : S) (m : TungsteniteMessage F) → (sink_send s m).1 ≡ ok tt)
    (writes : (s : S) (m : TungsteniteMessage F) → written (sink_send s m).0 ≡ written s ++ m ∷ [])
    {C : Type 0} (push : C → Result Message WsError → C × Bool)
    (queued : C → List (Result Message WsError))
    (pushes : (c : C) (m : Result Message WsError) → queued (push c m).0 ≡ queued c ++ m ∷ [])
    (takes : (c : C) (m : Result Message WsError) → (push c m).1 ≡ false) {K : Type 0}
    (channel_send : K → InRawMessage → K × Option InRawMessage) (kept : K → List InRawMessage)
    (keeps : (c : K) (m : InRawMessage) → kept (channel_send c m).0 ≡ kept c ++ m ∷ [])
    (sends : (c : K) (m : InRawMessage) → (channel_send c m).1 ≡ none) where
  writes_all :
      (s : S) (m : TungsteniteMessage F)
      → written (sink_send s m).0
        ≡ (if is_err (sink_send s m).1 then written s else written s ++ m ∷ [])
  writes_all s m = ground (arith, works s m, writes s m)

  -- A leg on which nothing fails.
  leg :
      (outbox : List SinkEvent) (sender : SinkState S)
      → written sender.sink ≡ []
      → (es : List (StreamEvent (TungsteniteMessage F))) (stream : StreamState C)
      → yielded es ≡ map ok (written (sink_run to_tungstenite sink_send outbox sender).0.sink)
      → queued stream.channel ≡ []
      → queued (stream_run from_tungstenite push es stream).0.channel
        ≡ map ok (messages (payloads outbox))
  leg outbox sender fresh es stream carried empty =
      sink_run-stream_run sink_send written writes_all push queued pushes takes outbox sender fresh
        es stream carried empty
      ∙ ap (λ ms. map ok (messages ms)) (taken_all sink_send (payloads outbox) sender.sink works)

  -- The server's session: it hears the messages, and hands the echoes to its socket.
  echoes :
      (bs : List (Branch (Unit {0}))) (session : SessionState (List Utf8Bytes) K)
      (ms : List Message)
      → session.extension ≡ []
      → kept session.channel ≡ []
      → incomings bs ≡ map some (map ok ms)
      → close_of ms ≡ none
      → outgoings bs
        ≡ map Message.text (session_run (graceful_ext true) channel_send bs session).0.extension
      → (raws (kept (session_run (graceful_ext true) channel_send bs session).0.channel)
          ≡ map to_raw (map Message.text (texts ms)))
        × ((session_run (graceful_ext true) channel_send bs session).1 ≡ none)
  echoes bs session ms new_session no_messages handed open_end flushed =
      let posted = (session_run (graceful_ext true) channel_send bs session).0.extension in
      let (asked, closes) =
        incomings-requests bs ms handed (outgoings-ClosesNothing bs posted flushed) in
      let (state, result) =
        session_run-serve_all (graceful_ext true) channel_send bs session sends in
      let served = serves_graceful channel_send (requests bs) session.extension in
      let goes_on : (session_run (graceful_ext true) channel_send bs session).1 ≡ none =
        ground (arith, result, served, closes, open_end) in
      let heard : posted ≡ texts ms = ground (
        arith,
        state,
        served,
        new_session,
        texts-conveyed (requests bs),
        asked,
        before_close_all ms open_end,
      ) in
      let out = raws-session_run (graceful_ext true) channel_send kept keeps bs session goes_on in
      (ground (arith, out, no_messages, flushed, heard), goes_on)

  -- The round trip. A client sends texts, binaries, pings and pongs, but no close message, over a new
  -- connection that fails on nothing and carries exactly what is written either way, with channels that
  -- keep everything. If the session of the graceful echo server reads all that comes, its loop sends
  -- exactly what its handle has posted, and its sink actor takes up all of that, then what the client
  -- reads in the end is exactly the texts that it sent, in order, and the session still runs.
  pub echo_round_trip :
      (outbox : List SinkEvent) (client_sink : SinkState S)
      → close_of (messages (payloads outbox)) ≡ none
      → written client_sink.sink ≡ []
      → (there : List (StreamEvent (TungsteniteMessage F))) (server_stream : StreamState C)
      → yielded there
        ≡ map ok (written (sink_run to_tungstenite sink_send outbox client_sink).0.sink)
      → queued server_stream.channel ≡ []
      → (bs : List (Branch (Unit {0}))) (session : SessionState (List Utf8Bytes) K)
      → session.extension ≡ []
      → kept session.channel ≡ []
      → incomings bs
        ≡ map some (queued (stream_run from_tungstenite push there server_stream).0.channel)
      → outgoings bs
        ≡ map Message.text (session_run (graceful_ext true) channel_send bs session).0.extension
      → (replies : List SinkEvent) (server_sink : SinkState S)
      → payloads replies
        ≡ raws (kept (session_run (graceful_ext true) channel_send bs session).0.channel)
      → written server_sink.sink ≡ []
      → (back : List (StreamEvent (TungsteniteMessage F))) (client_stream : StreamState C)
      → yielded back
        ≡ map ok (written (sink_run to_tungstenite sink_send replies server_sink).0.sink)
      → queued client_stream.channel ≡ []
      → (queued (stream_run from_tungstenite push back client_stream).0.channel
          ≡ map ok (map Message.text (texts (messages (payloads outbox)))))
        × ((session_run (graceful_ext true) channel_send bs session).1 ≡ none)
  echo_round_trip outbox client_sink open_end fresh there server_stream carried empty bs session
        new_session no_messages handed flushed replies server_sink taken_up fresh' back
        client_stream carried' empty' =
      let ms = messages (payloads outbox) in
      let arrives = leg outbox client_sink fresh there server_stream carried empty in
      let (out, goes_on) =
        echoes bs session ms new_session no_messages (handed ∙ ap (map some) arrives) open_end
          flushed in
      (
        leg replies server_sink fresh' back client_stream carried' empty'
            ∙ ap (λ rs. map ok (messages rs)) (taken_up ∙ out)
            ∙ ap (map ok) (messages-to_raw (texts ms)),
        goes_on,
      )
