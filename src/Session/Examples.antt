-- ===== src/Session/Examples.antt =====
-- A session that is told something, asked something, and closed.
use ezsockets.Base.{
  List, Option, [], arith, err, if◌then◌else◌, length, map, none, ok, refl, some, ℕ, ◌++◌, ◌==◌,
  ◌∷◌, ◌≡◌, ◌≢◌, ◌⊎◌,
}
use ezsockets.Error.{Error, WsError}
use ezsockets.Handle.{post}
use ezsockets.Session.{
  Branch, SessionExt, SessionState, called, incoming, outgoing, pending, ready, select, session_run,
  session_step,
}
use ezsockets.Session.Conserving.{raw_of}
use ezsockets.Session.Failing.{AllFailed}
use ezsockets.Session.Handlers.{session_run-serve_all}
use ezsockets.Session.Posting.{accepted, session_moves-accepted}
use ezsockets.Session.System.{
  SessionMove, SessionSystem, actor_round, after_step, alive, drop_all, goes_round, handle_call,
  handle_post, makes_call, receive, session_moves, take_branch,
}
use ezsockets.Socket.CloseCode.{CloseCode}
use ezsockets.Socket.Message.{CloseFrame, Message}
use ezsockets.Socket.Signal.{
  InMessage, InRawMessage, drop_message, failed, into_raw, sending, status,
}

-- It keeps what it was told, and fails on an empty binary message.
abbrev demo : SessionExt (List ℕ) ℕ
demo = record {
  on_text = λ e s. (1 ∷ e, ok tt);
  on_binary = λ e bytes. (2 ∷ e, if length bytes == 0 then err (Error.handler 0) else ok tt);
  on_call = λ e a. (a ∷ e, ok tt);
}

-- A queue without a bound.
abbrev enqueue : List InRawMessage → InRawMessage → List InRawMessage × Option InRawMessage
enqueue c m = (c ++ m ∷ [], none)

abbrev began : SessionState (List ℕ) (List InRawMessage)
began = record { extension = []; channel = []; signals = record { allocated = 0; cell = λ i. 0 } }

abbrev farewell : CloseFrame
farewell = record { code = CloseCode.normal; reason = "bye" }

abbrev rounds : List (Branch ℕ)
rounds =
    incoming (some (ok (Message.text "hello")))
    ∷ incoming (some (err WsError.io))
    ∷ called 9
    ∷ outgoing (record { message = some (Message.close (some farewell)); signal = none })
    ∷ called 10
    ∷ []

session_run-serve_all_example :
    let (st, r) = session_run demo enqueue rounds began in
    (st.extension ≡ 9 ∷ 1 ∷ []) × (r ≡ some (ok (some farewell)))
session_run-serve_all_example = session_run-serve_all demo enqueue rounds began (λ c m. refl)

-- Two texts are posted around a close message.
abbrev opened : SessionSystem (List ℕ) ℕ (List InRawMessage)
opened = record { actor = began; to_socket = []; calls = []; ended = none }

abbrev parting : List (SessionMove ℕ)
parting =
    SessionMove.posts (Message.text "a")
    ∷ SessionMove.posts (Message.close (some farewell))
    ∷ SessionMove.posts (Message.text "b")
    ∷ makes_call 9
    ∷ goes_round pending
    ∷ goes_round (ready none)
    ∷ SessionMove.posts (Message.text "late")
    ∷ []

-- The second text fails with the close, and the last is not accepted.
parting_signals :
    let s = (session_moves demo enqueue parting opened).actor.signals in
    (status s 0 ≡ sending)
    × (status s 1 ≡ sending)
    × (status s 2 ≡ failed)
    × ((session_moves demo enqueue parting opened).actor.extension ≡ [])
unfolding session_moves actor_round take_branch after_step receive session_step handle_post
    handle_call status post select alive drop_all drop_message into_raw
parting_signals = (refl, refl, refl, refl)

session_moves-accepted_example :
    let s = session_moves demo enqueue parting opened in
    (rest : List InMessage) × (s.actor.channel ++ map raw_of rest
      ≡ map raw_of (accepted demo enqueue parting opened))
    × (((s.ended ≡ none) × (rest ≡ s.to_socket))
        ⊎ ((s.ended ≢ none) × AllFailed rest s.actor.signals))
session_moves-accepted_example =
    session_moves-accepted demo enqueue (λ c. c) (λ c m e. refl) (λ c m m' e. absurd (ground arith))
      parting opened refl refl refl
