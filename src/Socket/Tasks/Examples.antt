-- ===== src/Socket/Tasks/Examples.antt =====
-- A socket that sends a message, and whose stream ends.
use ezsockets.Base.{List, Result, [], false, none, ok, refl, some, ◌++◌, ◌∷◌, ◌≡◌}
use ezsockets.Error.{WsError}
use ezsockets.Socket.Closing.{await_sink_close}
use ezsockets.Socket.Heartbeat.{SocketConfig}
use ezsockets.Socket.Message.{RawMessage}
use ezsockets.Socket.Signal.{Signals}
use ezsockets.Socket.Stream.{StreamEnd, StreamEvent, finished, stream_step}
use ezsockets.Socket.Tasks.{
  TaskReach, Tasks, new_socket, now_here, stream_reads, stream_round, then_next,
}
use ezsockets.Socket.Tasks.Ending.{Returns, stream_end-await_sink_close}

-- A websocket that takes everything.
abbrev takes_all : List RawMessage → RawMessage → List RawMessage × Result (Unit {0}) WsError
takes_all ms m = (ms ++ m ∷ [], ok tt)

abbrev as_is : RawMessage → RawMessage
as_is m = m

abbrev config : SocketConfig
config = record { heartbeat = 5; timeout = 10; heartbeat_ping_msg_fn = λ t. RawMessage.ping [] }

abbrev no_signals : Signals
no_signals = record { allocated = 0; cell = λ i. 0 }

abbrev began : Tasks (List RawMessage)
began = new_socket config [] no_signals 0

abbrev stream_over : Tasks (List RawMessage)
stream_over = record began { stream_end = some finished }

stream_over-Reach : TaskReach as_is takes_all some config began stream_over
unfolding stream_round stream_step
stream_over-Reach = then_next now_here (stream_reads StreamEvent.ended refl refl)

stream_end-await_sink_close_example :
    ((stream_over.stream_end ≡ none)
      → (stream_over.aborted ≡ false)
        × (stream_over.reported ≡ none)
        × (stream_over.sink_result ≡ some (ok tt)
            → (stream_over.holds_sink ≡ false) × (stream_over.deadline ≡ none)))
    × ((e : StreamEnd)
        → stream_over.stream_end ≡ some e
        → (t : Tasks (List RawMessage)) × (r : Result (Unit {0}) WsError) × TaskReach as_is
            takes_all some config stream_over t
          × (t.deadline ≡ none)
          × (t.sink_result ≡ some r)
          × (t.sink.sink ≡ stream_over.sink.sink)
          × ((await_sink_close (some t.reported)).1 ≡ r)
          × Returns stream_over r)
stream_end-await_sink_close_example =
    stream_end-await_sink_close as_is takes_all some config stream_over stream_over-Reach
