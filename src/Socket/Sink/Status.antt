-- ===== src/Socket/Sink/Status.antt =====
-- What the signals say once the sink actor of src/socket.rs has taken a message.
use ezsockets.Base.{
  Bool, List, Option, Result, [], arith, false, if◌then◌else◌, is_err, none, refl, some, ◌++◌, ◌==◌,
  ◌∷◌, ◌≡◌,
}
use ezsockets.Error.{WsError}
use ezsockets.Socket.Message.{RawMessage}
use ezsockets.Socket.Signal.{InRawMessage, MessageSignal, MessageStatus, failed, sent, status}
use ezsockets.Socket.Sink.{SinkEvent, SinkState, received, sink_run, sink_step}

-- The event is a message that carries the signal.
abbrev pub carries : MessageSignal → SinkEvent → Bool
carries i (received m) = elim m.signal [ none ↦ false | some j ↦ i == j ]
carries i _ = false

abbrev pub NoneCarries : MessageSignal → List SinkEvent → Type 0
NoneCarries i [] = Unit {0}
NoneCarries i (e ∷ es) = (carries i e ≡ false) × NoneCarries i es

module _ {S M : Type 0} (from_raw : RawMessage → M)
    (sink_send : S → M → S × Result (Unit {0}) WsError) where
  -- The status that a received message's signal ends with: failed for an empty one, else by the
  -- result of the websocket.
  abbrev pub outcome : Option RawMessage → S → MessageStatus
  outcome none s = failed
  outcome (some m) s = if is_err (sink_send s (from_raw m)).1 then failed else sent

  -- Taking a message settles its signal by the result of the websocket, and no other signal changes.
  pub status-sink_step :
      (m : InRawMessage) (i j : MessageSignal) (st : SinkState S)
      → m.signal ≡ some i
      → status (sink_step from_raw sink_send (received m) st).0.signals j
        ≡ (if i == j then outcome m.message st.sink else status st.signals j)
  unfolding sink_step status
  status-sink_step m i j st e = ground arith

  step_keeps_other :
      (e : SinkEvent) (st : SinkState S) (j : MessageSignal)
      → carries j e ≡ false
      → status (sink_step from_raw sink_send e st).0.signals j ≡ status st.signals j
  unfolding sink_step status
  step_keeps_other e st j h = ground arith

  run_keeps_other :
      (es : List SinkEvent) (st : SinkState S) (j : MessageSignal)
      → NoneCarries j es
      → status (sink_run from_raw sink_send es st).0.signals j ≡ status st.signals j
  unfolding sink_run
  run_keeps_other [] st j h = refl
  run_keeps_other (e ∷ es) st j h = ground (
    arith,
    run_keeps_other es (sink_step from_raw sink_send e st).0 j h.1,
    step_keeps_other e st j h.0,
  )

  step_settles :
      (m : InRawMessage) (i : MessageSignal) (st : SinkState S)
      → m.signal ≡ some i
      → status (sink_step from_raw sink_send (received m) st).0.signals i
        ≡ outcome m.message st.sink
  step_settles m i st e = ground (arith, status-sink_step m i i st e)

  -- Every message that the actor takes while it runs gets the signal that it deserves, for good: if no
  -- later message carries the same signal, then in every later state it reads `Sent` if the message was
  -- there and the websocket took it, in the state in which the sink was at that time, and `Failed` if
  -- the message was empty or the websocket refused it.
  pub sink_run-settles :
      (before after : List SinkEvent) (m : InRawMessage) (i : MessageSignal) (st : SinkState S)
      → m.signal ≡ some i
      → (sink_run from_raw sink_send before st).1 ≡ none
      → NoneCarries i after
      → status (sink_run from_raw sink_send (before ++ received m ∷ after) st).0.signals i
        ≡ outcome m.message (sink_run from_raw sink_send before st).0.sink
  unfolding sink_run
  sink_run-settles [] after m i st e h n = ground (
    arith,
    step_settles m i st e,
    run_keeps_other after (sink_step from_raw sink_send (received m) st).0 i n,
  )
  sink_run-settles (ev ∷ before) after m i st e h n =
      ground (arith, sink_run-settles before after m i (sink_step from_raw sink_send ev st).0 e)
