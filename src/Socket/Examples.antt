-- ===== src/Socket/Examples.antt =====
-- Runs of the parts of src/socket.rs.
use ezsockets.Base.{
  Bool, List, Option, Result, [], arith, err, false, none, ok, refl, some, true, ℕ, ◌++◌, ◌↔◌, ◌∷◌,
  ◌≡◌,
}
use ezsockets.Error.{WsError, connection_closed}
use ezsockets.Socket.Heartbeat.{
  Beat, HeartbeatEvent, SocketConfig, handle_heartbeat_sleep_elapsed, slept, socket_heartbeat,
}
use ezsockets.Socket.Heartbeat.Liveness.{Silent, socket_heartbeat-ends}
use ezsockets.Socket.Message.{Message, RawMessage}
use ezsockets.Socket.Signal.{InRawMessage, Signals, failed, status}
use ezsockets.Socket.Sink.{SinkEvent, SinkState, closed, received, sink_run, sink_step}
use ezsockets.Socket.Sink.Delivery.{sink_run-send_all}
use ezsockets.Socket.Sink.Status.{sink_run-settles}
use ezsockets.Socket.Stream.{StreamEvent, StreamState, disconnected, ended, item, stream_run}
use ezsockets.Socket.Stream.Forwarding.{stream_run-push_all}

abbrev hello : RawMessage
hello = RawMessage.text "hello"

abbrev data_bytes : RawMessage
data_bytes = RawMessage.binary (1 ∷ 2 ∷ [])

abbrev two_signals : Signals
two_signals = record { allocated = 2; cell = λ i. 0 }

abbrev in_raw : RawMessage → ℕ → InRawMessage
in_raw m i = record { message = some m; signal = some i }

-- A websocket that takes one message.
abbrev takes_one : List RawMessage → RawMessage → List RawMessage × Result (Unit {0}) WsError
takes_one [] m = (m ∷ [], ok tt)
takes_one ms m = (ms, err connection_closed)

abbrev as_is : RawMessage → RawMessage
as_is m = m

abbrev empty_sink : SinkState (List RawMessage)
empty_sink = record { sink = []; signals = two_signals }

abbrev two_messages : List SinkEvent
two_messages = received (in_raw hello 0) ∷ received (in_raw data_bytes 1) ∷ closed ∷ []

sink_run-send_all_example :
    let (st, r) = sink_run as_is takes_one two_messages empty_sink in
    (st.sink ≡ hello ∷ []) × (r ≡ some (err connection_closed))
sink_run-send_all_example = sink_run-send_all as_is takes_one two_messages empty_sink

sink_run-settles_example :
    status (sink_run as_is takes_one two_messages empty_sink).0.signals 1 ≡ failed
unfolding sink_run sink_step
sink_run-settles_example =
    sink_run-settles as_is takes_one (received (in_raw hello 0) ∷ []) (closed ∷ [])
      (in_raw data_bytes 1) 1 empty_sink refl refl (refl, tt)

-- An owner that takes every message.
abbrev keep_all :
    List (Result Message WsError) → Result Message WsError → List (Result Message WsError) × Bool
keep_all ms m = (ms ++ m ∷ [], false)

abbrev idle_stream : StreamState (List (Result Message WsError))
idle_stream = record { channel = []; last_alive = 0 }

abbrev incoming_items : List (StreamEvent RawMessage)
incoming_items =
    item 1 (ok hello) ∷ item 2 (ok (RawMessage.ping [])) ∷ item 3 (err WsError.io) ∷ ended ∷ []

stream_run-push_all_example :
    let (st, r) = stream_run some keep_all incoming_items idle_stream in
    (st.channel ≡ ok (Message.text "hello") ∷ err WsError.io ∷ [])
    × ((r ≡ some disconnected) ↔ (false ≡ true))
stream_run-push_all_example =
    stream_run-push_all some keep_all incoming_items idle_stream (λ e. cc, (λ e. cc, tt))

-- A queue without a bound.
abbrev enqueue : List InRawMessage → InRawMessage → List InRawMessage × Option InRawMessage
enqueue c m = (c ++ m ∷ [], none)

abbrev no_beat : Beat (List InRawMessage)
no_beat = record { channel = []; signals = two_signals }

-- A heartbeat of 4 and a timeout of 5.
abbrev quick : SocketConfig
quick = record { heartbeat = 4; timeout = 5; heartbeat_ping_msg_fn = λ t. RawMessage.ping (t ∷ []) }

abbrev three_sleeps : List HeartbeatEvent
three_sleeps = slept 4 0 1 ∷ slept 8 0 2 ∷ slept 12 0 3 ∷ []

silence : Silent enqueue quick 0 three_sleeps 4 no_beat
unfolding handle_heartbeat_sleep_elapsed
silence = (refl, omega arith, (refl, omega arith, tt))

socket_heartbeat-ends_example : (socket_heartbeat enqueue quick three_sleeps 4 no_beat).1 ≡ none
socket_heartbeat-ends_example =
    socket_heartbeat-ends enqueue quick three_sleeps 0 4 no_beat (omega arith) silence (omega arith)
