-- ===== src/Echo/Examples.antt =====
-- A client says two texts and sends a ping and a binary message, and hears the texts again.
use ezsockets.Base.{List, Result, [], map, none, ok, refl, some, true, ℕ, ◌∷◌, ◌≡◌}
use ezsockets.Echo.{graceful_ext, graceful_on_text}
use ezsockets.Echo.Trip.{echo_round_trip, texts}
use ezsockets.Error.{WsError}
use ezsockets.Session.{Branch, SessionState, session_run, session_step}
use ezsockets.Socket.Message.{Message, RawMessage, Utf8Bytes, to_raw}
use ezsockets.Socket.Signal.{InRawMessage, into_raw}
use ezsockets.Socket.Sink.{SinkEvent, SinkState, sink_run, sink_step}
use ezsockets.Socket.Sink.Delivery.{payloads}
use ezsockets.Socket.Stream.{StreamEvent, StreamState, item, stream_run, stream_step}
use ezsockets.Tungstenite.{TungsteniteMessage, from_tungstenite, to_tungstenite}
use ezsockets.Wire.{messages}
use ezsockets.Wire.Queues.{enqueue, keep, no_signals, put}

abbrev posted_raw : RawMessage → SinkEvent
posted_raw m = SinkEvent.received (record { message = some m; signal = none })

abbrev speech : List SinkEvent
speech =
    posted_raw (RawMessage.text "hi")
    ∷ posted_raw (RawMessage.ping (1 ∷ []))
    ∷ posted_raw (RawMessage.binary (7 ∷ []))
    ∷ posted_raw (RawMessage.text "ho")
    ∷ []

abbrev fresh_sink : SinkState (List (TungsteniteMessage ℕ))
fresh_sink = record { sink = []; signals = no_signals }

abbrev there : List (StreamEvent (TungsteniteMessage ℕ))
there =
    item 1 (ok (TungsteniteMessage.text "hi"))
    ∷ item 2 (ok (TungsteniteMessage.ping (1 ∷ [])))
    ∷ item 3 (ok (TungsteniteMessage.binary (7 ∷ [])))
    ∷ item 4 (ok (TungsteniteMessage.text "ho"))
    ∷ []

abbrev fresh_stream : StreamState (List (Result Message WsError))
fresh_stream = record { channel = []; last_alive = 0 }

abbrev says_text : Utf8Bytes → Branch (Unit {0})
says_text t = Branch.outgoing (record { message = some (Message.text t); signal = none })

abbrev rounds : List (Branch (Unit {0}))
rounds =
    Branch.incoming (some (ok (Message.text "hi")))
    ∷ says_text "hi"
    ∷ Branch.incoming (some (ok (Message.binary (7 ∷ []))))
    ∷ Branch.incoming (some (ok (Message.text "ho")))
    ∷ says_text "ho"
    ∷ []

abbrev fresh_session : SessionState (List Utf8Bytes) (List InRawMessage)
fresh_session = record { extension = []; channel = []; signals = no_signals }

abbrev replies : List SinkEvent
replies = posted_raw (RawMessage.text "hi") ∷ posted_raw (RawMessage.text "ho") ∷ []

abbrev back : List (StreamEvent (TungsteniteMessage ℕ))
back = item 5 (ok (TungsteniteMessage.text "hi")) ∷ item 6 (ok (TungsteniteMessage.text "ho")) ∷ []

echo_round_trip_example :
    ((stream_run from_tungstenite enqueue back fresh_stream).0.channel
      ≡ map ok (map Message.text (texts (messages (payloads speech)))))
    × ((session_run (graceful_ext true) keep rounds fresh_session).1 ≡ none)
unfolding sink_run sink_step stream_run stream_step to_tungstenite from_tungstenite session_run
    session_step graceful_on_text to_raw into_raw
echo_round_trip_example =
    echo_round_trip put (λ s. s) (λ s m. refl) (λ s m. refl) enqueue (λ c. c) (λ c m. refl)
      (λ c m. refl) keep (λ c. c) (λ c m. refl) (λ c m. refl) speech fresh_sink refl refl there
      fresh_stream refl refl rounds fresh_session refl refl refl refl replies fresh_sink refl refl
      back fresh_stream refl refl
