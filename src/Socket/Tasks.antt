-- ===== src/Socket/Tasks.antt =====
-- The tasks that `Socket::new` of src/socket.rs spawns, among their channels: the sink actor, the stream
-- actor, the heartbeat, and the one that waits for the end of the stream.
pub mod Ending
mod Examples
use mathlib.Core.Option
use ezsockets.Base.{
  Bool, List, Option, Result, [], false, if◌then◌else◌, none, some, true, ℕ, ◌++◌, ◌+◌, ◌∷◌, ◌≡◌,
  ◌≤◌,
}
use ezsockets.Error.{WsError}
use ezsockets.Socket.Heartbeat.{SocketConfig, handle_heartbeat_sleep_elapsed}
use ezsockets.Socket.Message.{Message, RawMessage}
use ezsockets.Socket.Signal.{InRawMessage, Signals, drop_raw, into_raw, new_message}
use ezsockets.Socket.Sink.{SinkEvent, SinkState, sink_send, sink_step}
use ezsockets.Socket.Stream.{StreamEnd, StreamEvent, StreamState, stream_step}

-- The channel to the sink actor: whether its receiver is there, and what it holds.
abbrev pub RawQueue : Type 0
RawQueue = Bool × List InRawMessage

unfoldable pub queue_send : RawQueue → InRawMessage → RawQueue × Option InRawMessage
queue_send (true, q) m = ((true, q ++ m ∷ []), none)
queue_send (false, q) m = ((false, q), some m)

pub record Tasks (S : Type 0) : Type 0 where
  pub sink : SinkState S
  pub to_sink : List InRawMessage
  -- What `SinkActor::run` returned, once it has.
  pub sink_result : Option (Result (Unit {0}) WsError)
  -- The stream actor, with the channel to the socket's reader and `last_alive`.
  pub stream : StreamState (List (Result Message WsError))
  pub stream_end : Option StreamEnd
  -- When the heartbeat's sleep is over; none once its loop is left.
  pub deadline : Option ℕ
  -- Whether both abort messages were sent, and what was sent to `sink_result_receiver`.
  pub aborted : Bool
  pub reported : Option (Result (Unit {0}) WsError)
  -- Whether the user still holds the `Sink` and the `Stream` of the socket.
  pub holds_sink : Bool
  pub holds_stream : Bool

-- Whether the sink actor still receives.
abbrev pub is_running : {A : Type 0} → Option A → Bool
is_running none = true
is_running (some a) = false

-- What a `send` leaves; a message that comes back is dropped.
after_post : {S : Type 0} → Tasks S → (RawQueue × Option InRawMessage) × Signals → Tasks S
unfolding drop_raw
after_post s ((q, none), signals) = record s {
  to_sink = q.1;
  sink = record (s.sink) { signals = signals };
}
after_post s ((q, some m), signals) = record s {
  to_sink = q.1;
  sink = record (s.sink) { signals = drop_raw m signals };
}

-- `Socket::send` of a new message.
unfoldable pub post_message : {S : Type 0} → Message → Tasks S → Tasks S
unfolding after_post sink_send new_message queue_send
post_message message s =
    let (m, signals) = new_message message s.sink.signals in
    after_post s (sink_send queue_send (is_running s.sink_result, s.to_sink) m signals)

module _ {S M N : Type 0} (from_raw : RawMessage → M)
    (sink_send : S → M → S × Result (Unit {0}) WsError) (into_raw : N → Option RawMessage)
    (config : SocketConfig) where
  -- A round of the sink actor.
  unfoldable pub sink_round : SinkEvent → Tasks S → Tasks S
  unfolding sink_step
  sink_round ev s =
      let (sink, r) = sink_step from_raw sink_send ev s.sink in
      record s { sink = sink; sink_result = r }

  -- A round of the stream actor; a push is lost once its reader is gone.
  unfoldable pub stream_round : StreamEvent N → Tasks S → Tasks S
  unfolding stream_step
  stream_round ev s =
      let push = λ (c : List (Result Message WsError)) (m : Result Message WsError).
        if s.holds_stream then (c ++ m ∷ [], false) else (c, true) in
      let (stream, r) = stream_step into_raw push ev s.stream in
      record s { stream = stream; stream_end = r }

  -- A round of the heartbeat, at a time and a time since UNIX_EPOCH.
  unfoldable pub beat : ℕ → ℕ → Tasks S → Tasks S
  unfolding handle_heartbeat_sleep_elapsed queue_send
  beat now timestamp s =
      let (b, d) =
        handle_heartbeat_sleep_elapsed queue_send config s.stream.last_alive now timestamp
          (record { channel = (is_running s.sink_result, s.to_sink); signals = s.sink.signals }) in
      record s {
        to_sink = b.channel.1;
        sink = record (s.sink) { signals = b.signals };
        deadline = Option.map (λ duration. now + duration) d;
      }

  -- One step of a task, or of a user of the socket.
  pub data TaskStep (s t : Tasks S) : Type 0 where
    posts : (message : Message) → s.holds_sink ≡ true → t ≡ post_message message s → TaskStep s t
    drops_sink : t ≡ record s { holds_sink = false } → TaskStep s t
    drops_stream : t ≡ record s { holds_stream = false } → TaskStep s t
    sink_takes :
        (m : InRawMessage) (rest : List InRawMessage)
        → s.sink_result ≡ none
        → s.to_sink ≡ m ∷ rest
        → t ≡ sink_round (SinkEvent.received m) (record s { to_sink = rest })
        → TaskStep s t
    sink_stops :
        s.sink_result ≡ none → s.aborted ≡ true → t ≡ sink_round SinkEvent.aborted s → TaskStep s t
    -- No sender is left: the user's is gone, and the heartbeat with its own.
    sink_closes :
        s.sink_result ≡ none
        → s.holds_sink ≡ false
        → s.deadline ≡ none
        → s.to_sink ≡ []
        → t ≡ sink_round SinkEvent.closed s
        → TaskStep s t
    stream_reads : (ev : StreamEvent N) → s.stream_end ≡ none → t ≡ stream_round ev s → TaskStep s t
    beats :
        (d now timestamp : ℕ)
        → s.deadline ≡ some d
        → d ≤ now
        → t ≡ beat now timestamp s
        → TaskStep s t
    beat_stops :
        (d : ℕ)
        → s.deadline ≡ some d
        → s.aborted ≡ true
        → t ≡ record s { deadline = none }
        → TaskStep s t
    -- The last task: the stream has ended, and both actors are told.
    aborts :
        (e : StreamEnd)
        → s.stream_end ≡ some e
        → s.aborted ≡ false
        → t ≡ record s { aborted = true }
        → TaskStep s t
    -- It passes on what the sink actor returned.
    reports :
        (r : Result (Unit {0}) WsError)
        → s.aborted ≡ true
        → s.sink_result ≡ some r
        → s.reported ≡ none
        → t ≡ record s { reported = some r }
        → TaskStep s t

  pub data TaskReach (s : Tasks S) : Tasks S → Type 0 where
    now_here : TaskReach s s
    then_next : {t u : Tasks S} → TaskReach s t → TaskStep t u → TaskReach s u

-- `Socket::new`, at the time `now`.
abbrev pub new_socket : {S : Type 0} → SocketConfig → S → Signals → ℕ → Tasks S
new_socket config sink signals now = record {
  sink = record { sink = sink; signals = signals };
  to_sink = [];
  sink_result = none;
  stream = record { channel = []; last_alive = now };
  stream_end = none;
  deadline = some (now + config.heartbeat);
  aborted = false;
  reported = none;
  holds_sink = true;
  holds_stream = true;
}
