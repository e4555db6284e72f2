-- ===== src/Socket/Tasks/Ending.antt =====
-- How the tasks of a socket (src/socket.rs) end.
use ezsockets.Base.{
  Bool-cases, Option, Option-cases, Result, Result-cases, arith, false, inl, inr, none, ok, refl,
  some, subst, true, ℕ, ◌≡◌, ◌≢◌,
}
use ezsockets.Error.{WsError}
use ezsockets.Socket.Closing.{await_sink_close}
use ezsockets.Socket.Heartbeat.{SocketConfig}
use ezsockets.Socket.Message.{Message, RawMessage}
use ezsockets.Socket.Signal.{InRawMessage, Signals}
use ezsockets.Socket.Sink.{SinkEvent, SinkState, sink_step}
use ezsockets.Socket.Stream.{StreamEnd}
use ezsockets.Socket.Tasks.{
  TaskReach, TaskStep, Tasks, aborts, beat, beat_stops, beats, drops_sink, drops_stream, new_socket,
  now_here, post_message, posts, reports, sink_closes, sink_round, sink_stops, sink_takes,
  stream_reads, stream_round, then_next,
}

-- What holds in every interleaving.
pub record TaskInv {S : Type 0} (s : Tasks S) : Type 0 where
  -- The actors are told to stop only once the stream has ended.
  pub aborted_late : s.aborted ≡ true → s.stream_end ≢ none
  -- The sink actor returns with success only when it is told to stop, or nobody is left who could send.
  pub stopped :
      s.sink_result ≡ some (ok tt)
      → s.aborted ≡ false
      → (s.holds_sink ≡ false) × (s.deadline ≡ none)
  -- What is reported is what the sink actor returned, after that.
  pub reported :
      (r : Result (Unit {0}) WsError)
      → s.reported ≡ some r
      → (s.sink_result ≡ some r) × (s.aborted ≡ true)

-- What a sink actor returned, or success if it still runs.
abbrev pub Returns : {S : Type 0} → Tasks S → Result (Unit {0}) WsError → Type 0
Returns s r =
    ((r' : Result (Unit {0}) WsError) → s.sink_result ≡ some r' → r ≡ r')
    × (s.sink_result ≡ none → r ≡ ok tt)

module _ {S M N : Type 0} (from_raw : RawMessage → M)
    (sink_send : S → M → S × Result (Unit {0}) WsError) (into_raw : N → Option RawMessage)
    (config : SocketConfig) where
  posted_same :
      (message : Message) (s : Tasks S)
      → let t = post_message message s in
        (t.aborted ≡ s.aborted)
        × (t.stream_end ≡ s.stream_end)
        × (t.sink_result ≡ s.sink_result)
        × (t.reported ≡ s.reported)
        × (t.holds_sink ≡ s.holds_sink)
        × (t.deadline ≡ s.deadline)
  unfolding post_message
  posted_same message s = ground arith

  received_fails :
      (m : InRawMessage) (s : SinkState S)
      → (sink_step from_raw sink_send (SinkEvent.received m) s).1 ≢ some (ok tt)
  unfolding sink_step
  received_fails m s = elim (Option-cases m.message) [
    | inl e ↦ λ h. absurd (ground arith)
    | inr (message, e) ↦ elim (Result-cases (sink_send s.sink (from_raw message)).1) [
      | inl (u, r) ↦ λ h. absurd (ground arith)
      | inr (x, r) ↦ λ h. absurd (ground arith)
    ]
  ]

  Step-TaskInv :
      {s t : Tasks S} → TaskStep from_raw sink_send into_raw config s t → TaskInv s → TaskInv t
  unfolding sink_round stream_round beat sink_step
  Step-TaskInv {s} {t} (posts message k e) v = ground (arith, posted_same message s)
  Step-TaskInv {s} {t} (sink_takes m rest h q e) v = ground (arith, received_fails m s.sink)
  Step-TaskInv {s} {t} (sink_stops h a e) v = ground arith
  Step-TaskInv {s} {t} (drops_sink e) v = ground arith
  Step-TaskInv {s} {t} (drops_stream e) v = ground arith
  Step-TaskInv {s} {t} (sink_closes h k d q e) v = ground arith
  Step-TaskInv {s} {t} (stream_reads ev h e) v = ground arith
  Step-TaskInv {s} {t} (beats d now timestamp h l e) v = ground arith
  Step-TaskInv {s} {t} (beat_stops d h a e) v = ground arith
  Step-TaskInv {s} {t} (aborts se h a e) v = ground arith
  Step-TaskInv {s} {t} (reports r a h n e) v = ground arith

  Reach-TaskInv :
      {sink : S} {signals : Signals} {now : ℕ} {s : Tasks S}
      → TaskReach from_raw sink_send into_raw config (new_socket config sink signals now) s
      → TaskInv s
  Reach-TaskInv now_here = ground arith
  Reach-TaskInv (then_next r st) = Step-TaskInv st (Reach-TaskInv r)

  -- The last task tells the actors to stop.
  tells_actors :
      (s : Tasks S) (e : StreamEnd)
      → s.stream_end ≡ some e
      → TaskReach from_raw sink_send into_raw config s (record s { aborted = true })
  tells_actors s e h = elim (Bool-cases s.aborted) [
    | inl a ↦
        subst (λ b. TaskReach from_raw sink_send into_raw config s (record s { aborted = b })) a
          now_here
    | inr a ↦ then_next now_here (aborts e h a refl)
  ]

  stops_sink :
      (s : Tasks S)
      → s.aborted ≡ true
      → (r : Result (Unit {0}) WsError) × TaskReach from_raw sink_send into_raw config s
          (record s { sink_result = some r })
        × Returns s r
  unfolding sink_round sink_step
  stops_sink s a = elim (Option-cases s.sink_result) [
    | inl h ↦ (
      ok tt,
      then_next now_here (sink_stops h a refl),
      (λ r' q. absurd (ground arith), λ q. refl),
    )
    | inr (r, h) ↦ (
      r,
      subst (λ o. TaskReach from_raw sink_send into_raw config s (record s { sink_result = o })) h
          now_here,
      (λ r' q. ground arith, λ q. absurd (ground arith)),
    )
  ]

  stops_beat :
      (s : Tasks S)
      → s.aborted ≡ true
      → TaskReach from_raw sink_send into_raw config s (record s { deadline = none })
  stops_beat s a = elim (Option-cases s.deadline) [
    | inl h ↦
        subst (λ d. TaskReach from_raw sink_send into_raw config s (record s { deadline = d })) h
          now_here
    | inr (d, h) ↦ then_next now_here (beat_stops d h a refl)
  ]

  tells_reader :
      (s : Tasks S) (r : Result (Unit {0}) WsError)
      → s.aborted ≡ true
      → s.sink_result ≡ some r
      → TaskInv s
      → TaskReach from_raw sink_send into_raw config s (record s { reported = some r })
  tells_reader s r a h v = elim (Option-cases s.reported) [
    | inl n ↦ then_next now_here (reports r a h n refl)
    | inr (r', n) ↦
        let same : s.reported ≡ some r = ground (arith, v.reported r' n) in
        subst (λ o. TaskReach from_raw sink_send into_raw config s (record s { reported = o })) same
          now_here
  ]

  join_runs :
      {s t u : Tasks S}
      → TaskReach from_raw sink_send into_raw config s t
      → TaskReach from_raw sink_send into_raw config t u
      → TaskReach from_raw sink_send into_raw config s u
  join_runs r now_here = r
  join_runs r (then_next r' st) = then_next (join_runs r r') st

  keeps : {s t : Tasks S} → TaskReach from_raw sink_send into_raw config s t → TaskInv s → TaskInv t
  keeps now_here v = v
  keeps (then_next r st) v = Step-TaskInv st (keeps r v)

  -- The end of the stream ends the whole socket, and before it nobody is told of an end. In every
  -- reachable state of a new socket, in any interleaving of its tasks and of users who may drop their
  -- halves of it: if the stream actor still runs, the others were not told to stop, `await_sink_close`
  -- would still wait, and the sink actor has returned with success only if the user dropped the sink
  -- and the heartbeat has left its loop. Once the stream actor has returned, the tasks can go on until
  -- the heartbeat has left its loop, the sink actor has returned, and `await_sink_close` gets what it
  -- returned: the error that it had met, or else success.
  pub stream_end-await_sink_close :
      {sink : S} {signals : Signals} {now : ℕ} (s : Tasks S)
      → TaskReach from_raw sink_send into_raw config (new_socket config sink signals now) s
      → ((s.stream_end ≡ none)
          → (s.aborted ≡ false)
            × (s.reported ≡ none)
            × (s.sink_result ≡ some (ok tt) → (s.holds_sink ≡ false) × (s.deadline ≡ none)))
        × ((e : StreamEnd)
            → s.stream_end ≡ some e
            → (t : Tasks S) × (r : Result (Unit {0}) WsError) × TaskReach from_raw sink_send
                into_raw config s t
              × (t.deadline ≡ none)
              × (t.sink_result ≡ some r)
              × (t.sink.sink ≡ s.sink.sink)
              × ((await_sink_close (some t.reported)).1 ≡ r)
              × Returns s r)
  unfolding await_sink_close
  stream_end-await_sink_close s reached =
      let v = Reach-TaskInv reached in
      (
        λ h. elim (Bool-cases s.aborted) [
          | inl a ↦ absurd (v.aborted_late a h)
          | inr a ↦ elim (Option-cases s.reported) [
            | inl n ↦ (a, n, λ q. v.stopped q a)
            | inr (r, n) ↦ absurd (ground (arith, v.reported r n))
          ]
        ],
        λ e h.
            let run1 = tells_actors s e h in
            let s1 = record s { aborted = true } in
            let (r, run2, returns) = stops_sink s1 refl in
            let s2 = record s1 { sink_result = some r } in
            let run3 = stops_beat s2 refl in
            let s3 = record s2 { deadline = none } in
            let run = join_runs run1 (join_runs run2 run3) in
            let run4 = tells_reader s3 r refl refl (keeps run v) in
            (
              record s3 { reported = some r },
              r,
              join_runs run run4,
              refl,
              refl,
              refl,
              refl,
              returns,
            ),
      )
