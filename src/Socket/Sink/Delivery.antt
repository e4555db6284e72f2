-- ===== src/Socket/Sink/Delivery.antt =====
-- What the sink actor of src/socket.rs hands to the websocket.
use ezsockets.Base.{
  Bool, List, Option, Result, [], arith, err, false, none, ok, refl, some, true, ◌∷◌, ◌≡◌,
}
use ezsockets.Error.{WsError}
use ezsockets.Socket.Message.{RawMessage}
use ezsockets.Socket.Sink.{SinkEvent, SinkState, aborted, closed, received, sink_run, sink_step}

-- The messages received before the actor is told to stop.
abbrev pub payloads : List SinkEvent → List RawMessage
payloads [] = []
payloads (received inmessage ∷ es) = elim inmessage.message [
  | none ↦ payloads es
  | some m ↦ m ∷ payloads es
]
payloads (closed ∷ es) = []
payloads (aborted ∷ es) = []

-- Whether the actor is told to stop.
abbrev pub is_stopped : List SinkEvent → Bool
is_stopped [] = false
is_stopped (received inmessage ∷ es) = is_stopped es
is_stopped (closed ∷ es) = true
is_stopped (aborted ∷ es) = true

module _ {S M : Type 0} (from_raw : RawMessage → M)
    (sink_send : S → M → S × Result (Unit {0}) WsError) where
  -- Send the messages in turn, up to the first failure.
  abbrev pub send_all : List RawMessage → S → S × Option WsError
  send_all [] s = (s, none)
  send_all (m ∷ ms) s =
      let (s', r) = sink_send s (from_raw m) in
      elim r [ ok _ ↦ send_all ms s' | err e ↦ (s', some e) ]

  abbrev pub verdict : Option WsError → Bool → Option (Result (Unit {0}) WsError)
  verdict (some e) stopped = some (err e)
  verdict none true = some (ok tt)
  verdict none false = none

  -- The websocket receives exactly the messages that came before the end, in order and up to the
  -- first failure; the actor returns that failure, else success if it was stopped, else it waits.
  pub sink_run-send_all :
      (es : List SinkEvent) (st : SinkState S)
      → let (st', r) = sink_run from_raw sink_send es st in
        let (sink, e) = send_all (payloads es) st.sink in
        (st'.sink ≡ sink) × (r ≡ verdict e (is_stopped es))
  unfolding sink_run sink_step
  sink_run-send_all [] st = (refl, refl)
  sink_run-send_all (received m ∷ es) st =
      ground (arith, sink_run-send_all es (sink_step from_raw sink_send (received m) st).0)
  sink_run-send_all (closed ∷ es) st = (refl, refl)
  sink_run-send_all (aborted ∷ es) st = (refl, refl)
