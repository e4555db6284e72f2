-- ===== src/Socket/Stream/Forwarding.antt =====
-- What the stream actor of src/socket.rs passes on, and what keeps the connection alive.
use ezsockets.Base.{
  Bool, List, Option, Result, [], arith, err, false, if◌then◌else◌, none, ok, some, true, ℕ, ◌++◌,
  ◌↔◌, ◌∷◌, ◌≡◌, ◌≢◌,
}
use ezsockets.Error.{WsError}
use ezsockets.Socket.Message.{Message, RawMessage}
use ezsockets.Socket.Stream.{
  StreamEvent, StreamState, disconnected, ended, item, stream_run, stream_step,
}

module _ {M : Type 0} (into_raw : M → Option RawMessage) where
  -- What an item is passed on as: nothing for a ping or a pong, and an error as it is.
  abbrev pub output : Result M WsError → Option (Result Message WsError)
  output (err e) = some (err e)
  output (ok m) = elim (into_raw m) [
    | some (RawMessage.text s) ↦ some (ok (Message.text s))
    | some (RawMessage.binary bytes) ↦ some (ok (Message.binary bytes))
    | some (RawMessage.close frame) ↦ some (ok (Message.close frame))
    | _ ↦ none
  ]

  abbrev pub outputs : List (StreamEvent M) → List (Result Message WsError)
  outputs [] = []
  outputs (item now r ∷ es) = elim (output r) [ none ↦ outputs es | some m ↦ m ∷ outputs es ]
  outputs (ended ∷ es) = []

  -- No item of the list makes `M::into` panic.
  abbrev pub NoPanic : List (StreamEvent M) → Type 0
  NoPanic [] = Unit {0}
  NoPanic (item now (ok m) ∷ es) = (into_raw m ≢ none) × NoPanic es
  NoPanic (item now (err e) ∷ es) = NoPanic es
  NoPanic (ended ∷ es) = Unit {0}

module _ {C : Type 0} (send : C → Result Message WsError → C × Bool) where
  -- Push the messages in turn, up to the first that nobody receives.
  abbrev pub push_all : List (Result Message WsError) → C → C × Bool
  push_all [] c = (c, false)
  push_all (m ∷ ms) c = let (c', lost) = send c m in if lost then (c', true) else push_all ms c'

module _ {C M : Type 0} (into_raw : M → Option RawMessage)
    (send : C → Result Message WsError → C × Bool) where
  -- If the conversion of no item panics, the owner's channel receives exactly the texts, binaries, close frames and errors, in order, up
  -- to the end of the stream or the first message that nobody receives; a failed push ends the actor.
  pub stream_run-push_all :
      (es : List (StreamEvent M)) (st : StreamState C)
      → NoPanic into_raw es
      → let (st', r) = stream_run into_raw send es st in
        let (c, lost) = push_all send (outputs into_raw es) st.channel in
        (st'.channel ≡ c) × ((r ≡ some disconnected) ↔ (lost ≡ true))
  unfolding stream_run stream_step
  stream_run-push_all [] st h = ground arith
  stream_run-push_all (item now (ok m) ∷ es) st h =
      ground (arith, stream_run-push_all es (stream_step into_raw send (item now (ok m)) st).0 h.1)
  stream_run-push_all (item now (err e) ∷ es) st h =
      ground (arith, stream_run-push_all es (stream_step into_raw send (item now (err e)) st).0 h)
  stream_run-push_all (ended ∷ es) st h = ground arith

  step_refreshes :
      (now : ℕ) (r : Result M WsError) (st : StreamState C)
      → NoPanic into_raw (item now r ∷ [])
      → (stream_step into_raw send (item now r) st).0.last_alive ≡ now
  unfolding stream_step
  step_refreshes now (ok m) st h = ground arith
  step_refreshes now (err e) st h = ground arith

  -- Whatever comes in while the actor runs, a ping, a pong or an error too, is a sign of life: unless
  -- its conversion panics, it sets `last_alive` to the time at which it came.
  pub stream_run_refreshes :
      (before : List (StreamEvent M)) (now : ℕ) (r : Result M WsError) (st : StreamState C)
      → NoPanic into_raw (item now r ∷ [])
      → (stream_run into_raw send before st).1 ≡ none
      → (stream_run into_raw send (before ++ item now r ∷ []) st).0.last_alive ≡ now
  unfolding stream_run
  stream_run_refreshes [] now r st h running = ground (arith, step_refreshes now r st h)
  stream_run_refreshes (e ∷ before) now r st h running =
      ground (arith, stream_run_refreshes before now r (stream_step into_raw send e st).0 h)
