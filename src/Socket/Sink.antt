-- ===== src/Socket/Sink.antt =====
-- `SinkActor` and `Sink` of src/socket.rs. The channel, the runtime and the websocket are third-party
-- code: each round of the actor's `select!` is an event, and the websocket's sink is a function.
pub mod Delivery
pub mod Status
use ezsockets.Base.{List, Option, Result, [], err, none, ok, some, ◌∷◌}
use ezsockets.Error.{WsError}
use ezsockets.Socket.Message.{RawMessage}
use ezsockets.Socket.Signal.{
  InMessage, InRawMessage, Signals, drop_raw, failed, into_raw, sent, set_signal, take_message,
}

-- What one `select!` of `SinkActor::run` yields.
pub data SinkEvent : Type 0 where
  -- `Ok(inmessage)` from the receiver.
  received : InRawMessage → SinkEvent
  -- `Err` from the receiver: no sender is left, and the channel is empty.
  closed : SinkEvent
  -- Any result of the abort receiver.
  aborted : SinkEvent

-- The actor's sink, of type `S`, and the store of the signals.
pub record SinkState (S : Type 0) : Type 0 where
  pub sink : S
  pub signals : Signals

-- `M::from` and `SinkExt::send`.
module _ {S M : Type 0} (from_raw : RawMessage → M)
    (sink_send : S → M → S × Result (Unit {0}) WsError) where
  -- The match on the result of `send`; `inmessage` is dropped at the end of the round.
  after_send :
      InRawMessage
      → Signals
      → S × Result (Unit {0}) WsError
      → SinkState S × Option (Result (Unit {0}) WsError)
  unfolding set_signal drop_raw
  after_send inmessage signals (sink, ok _) =
      let (inmessage', signals') = set_signal sent inmessage signals in
      (record { sink = sink; signals = drop_raw inmessage' signals' }, none)
  after_send inmessage signals (sink, err e) =
      let (inmessage', signals') = set_signal failed inmessage signals in
      (record { sink = sink; signals = drop_raw inmessage' signals' }, some (err e))

  on_message :
      Option RawMessage
      → InRawMessage
      → SinkState S
      → SinkState S × Option (Result (Unit {0}) WsError)
  unfolding drop_raw after_send
  on_message none inmessage st = (record st { signals = drop_raw inmessage st.signals }, none)
  on_message (some message) inmessage st =
      after_send inmessage st.signals (sink_send st.sink (from_raw message))

  -- One round of the loop; `none` goes on with it, and `some` is what `run` returns.
  unfoldable pub sink_step :
      SinkEvent → SinkState S → SinkState S × Option (Result (Unit {0}) WsError)
  unfolding on_message take_message
  sink_step (received inmessage) st =
      let (message, inmessage') = take_message inmessage in on_message message inmessage' st
  sink_step closed st = (st, some (ok tt))
  sink_step aborted st = (st, some (ok tt))

  -- `SinkActor::run` over the events so far; `none` while it waits for the next one.
  unfoldable pub sink_run :
      List SinkEvent → SinkState S → SinkState S × Option (Result (Unit {0}) WsError)
  sink_run [] st = (st, none)
  sink_run (e ∷ es) st =
      let (st', r) = sink_step e st in
      elim r [ none ↦ sink_run es st' | some res ↦ (st', some res) ]

-- The sender of an `async_channel`: `some m` is `SendError(m)`.
module _ {C : Type 0} (channel_send : C → InRawMessage → C × Option InRawMessage) where
  -- `Sink::send_raw`.
  unfoldable pub sink_send_raw : C → InRawMessage → C × Option InRawMessage
  sink_send_raw c m = channel_send c m

  -- `Sink::send`.
  unfoldable pub sink_send : C → InMessage → Signals → (C × Option InRawMessage) × Signals
  unfolding into_raw
  sink_send c inmessage signals =
      let (m, signals') = into_raw inmessage signals in (channel_send c m, signals')
