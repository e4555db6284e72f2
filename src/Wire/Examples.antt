-- ===== src/Wire/Examples.antt =====
-- A text, a ping, a binary and a close message on their way from one side to the other.
use ezsockets.Base.{List, Result, [], none, ok, refl, some, ℕ, ◌++◌, ◌∷◌, ◌≡◌}
use ezsockets.Error.{WsError}
use ezsockets.Session.{Branch, SessionExt, SessionState, session_run}
use ezsockets.Session.Handlers.{ending, requests, serve_all}
use ezsockets.Socket.CloseCode.{CloseCode}
use ezsockets.Socket.Message.{CloseFrame, Message, RawMessage}
use ezsockets.Socket.Signal.{InRawMessage}
use ezsockets.Socket.Sink.{SinkEvent, SinkState, sink_run, sink_step}
use ezsockets.Socket.Sink.Delivery.{payloads}
use ezsockets.Socket.Stream.{StreamEvent, StreamState, item, stream_run, stream_step}
use ezsockets.Tungstenite.{
  TungsteniteCloseCode, TungsteniteMessage, from_tungstenite, from_tungstenite_code,
  from_tungstenite_frame, to_tungstenite, to_tungstenite_code, to_tungstenite_frame,
}
use ezsockets.Wire.{before_close, close_of, conveyed, messages, taken}
use ezsockets.Wire.Delivery.{sink_run-session_run}
use ezsockets.Wire.Queues.{enqueue, keep, no_signals, put}

-- The extension is what its handlers were called with.
abbrev listener : SessionExt (List Message) ℕ
listener = record {
  on_text = λ e s. (e ++ Message.text s ∷ [], ok tt);
  on_binary = λ e bytes. (e ++ Message.binary bytes ∷ [], ok tt);
  on_call = λ e a. (e, ok tt);
}

abbrev goodbye : CloseFrame
goodbye = record { code = CloseCode.library 4001; reason = "bye" }

abbrev posted : RawMessage → SinkEvent
posted m = SinkEvent.received (record { message = some m; signal = none })

abbrev posts : List SinkEvent
posts =
    posted (RawMessage.text "hi")
    ∷ posted (RawMessage.ping (1 ∷ []))
    ∷ posted (RawMessage.binary (7 ∷ []))
    ∷ posted (RawMessage.close (some goodbye))
    ∷ []

abbrev fresh_sink : SinkState (List (TungsteniteMessage ℕ))
fresh_sink = record { sink = []; signals = no_signals }

abbrev items : List (StreamEvent (TungsteniteMessage ℕ))
items =
    item 1 (ok (TungsteniteMessage.text "hi"))
    ∷ item 2 (ok (TungsteniteMessage.ping (1 ∷ [])))
    ∷ item 3 (ok (TungsteniteMessage.binary (7 ∷ [])))
    ∷ item 4 (
        ok (
          TungsteniteMessage.close
            (some (record { code = TungsteniteCloseCode.library 4001; reason = "bye" }))))
    ∷ []

abbrev fresh_stream : StreamState (List (Result Message WsError))
fresh_stream = record { channel = []; last_alive = 0 }

abbrev rounds : List (Branch ℕ)
rounds =
    Branch.incoming (some (ok (Message.text "hi")))
    ∷ Branch.called 5
    ∷ Branch.incoming (some (ok (Message.binary (7 ∷ []))))
    ∷ Branch.incoming (some (ok (Message.close (some goodbye))))
    ∷ []

abbrev fresh_session : SessionState (List Message) (List InRawMessage)
fresh_session = record { extension = []; channel = []; signals = no_signals }

sink_run-session_run_example :
    let ms = messages (taken to_tungstenite put (payloads posts) []) in
    let (session', r) = session_run listener keep rounds fresh_session in
    let (e, failure) = serve_all listener keep (requests rounds) [] in
    (conveyed (requests rounds) ≡ before_close ms)
    × (session'.extension ≡ e)
    × (r ≡ ending listener keep failure (close_of ms))
unfolding sink_run sink_step stream_run stream_step to_tungstenite from_tungstenite
    to_tungstenite_frame to_tungstenite_code from_tungstenite_frame from_tungstenite_code
sink_run-session_run_example =
    sink_run-session_run put (λ s. s) (λ s m. refl) enqueue (λ c. c) (λ c m. refl) (λ c m. refl)
      listener keep (λ c m. refl) posts fresh_sink refl items fresh_stream refl refl rounds
      fresh_session refl tt
