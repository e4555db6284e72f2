-- ===== src/Session.antt =====
-- src/session.rs: the loop of `SessionActor` and the rest of `Session`. The handlers are the user's:
-- a record of functions over the extension's state `E` and the calls `A`.
pub mod Handlers
pub mod Closing
pub mod Requests
pub mod Calls
pub mod System
pub mod Failing
pub mod Conserving
pub mod Rounds
pub mod Posting
mod Examples
use ezsockets.Base.{List, Option, Result, [], err, none, ok, some, ◌∷◌}
use ezsockets.Error.{Error, WsError}
use ezsockets.Socket.Message.{Bytes, CloseFrame, Message, Utf8Bytes}
use ezsockets.Socket.Signal.{InMessage, InRawMessage, Signals, drop_raw}
use ezsockets.Socket.Sink.{sink_send}

-- `SessionExt`: a handler returns the new extension and its result.
pub record SessionExt (E A : Type 0) : Type 0 where
  pub on_text : E → Utf8Bytes → E × Result (Unit {0}) Error
  pub on_binary : E → Bytes → E × Result (Unit {0}) Error
  pub on_call : E → A → E × Result (Unit {0}) Error

pub data Poll (A : Type 0) : Type 0 where
  pending : Poll A
  ready : A → Poll A

-- The three futures of the loop's `select!`, polled in one round.
pub record Polls (A : Type 0) : Type 0 where
  pub to_socket : Poll (Option InMessage)
  pub session_call : Poll (Option A)
  pub socket_recv : Poll (Option (Result Message WsError))

-- The branch that is taken.
pub data Branch (A : Type 0) : Type 0 where
  outgoing : InMessage → Branch A
  called : A → Branch A
  incoming : Option (Result Message WsError) → Branch A

module _ {A : Type 0} where
  select_socket : Poll (Option (Result Message WsError)) → Option (Branch A)
  select_socket pending = none
  select_socket (ready message) = some (incoming message)

  select_call : Poll (Option A) → Option (Branch A) → Option (Branch A)
  select_call (ready (some call)) rest = some (called call)
  select_call _ rest = rest

  select_outgoing : Poll (Option InMessage) → Option (Branch A) → Option (Branch A)
  select_outgoing (ready (some inmessage)) rest = some (outgoing inmessage)
  select_outgoing _ rest = rest

  -- `select!` with `biased`: the first branch whose future is ready with a value that its pattern
  -- takes. The third pattern takes every value, so that `else` is never reached; `none` waits.
  unfoldable pub select : Polls A → Option (Branch A)
  unfolding select_outgoing select_call select_socket
  select p = select_outgoing p.to_socket (select_call p.session_call (select_socket p.socket_recv))

-- The actor: its extension, the channel of its socket's sink, and the signals.
pub record SessionState (E C : Type 0) : Type 0 where
  pub extension : E
  pub channel : C
  pub signals : Signals

-- What `run` returns.
abbrev pub CloseResult : Type 0
CloseResult = Result (Option CloseFrame) Error

-- `Some(frame)` for a close message.
unfoldable pub close_frame : Option Message → Option (Option CloseFrame)
close_frame (some (Message.close frame)) = some frame
close_frame _ = none

module _ {E A C : Type 0} (ext : SessionExt E A)
    (channel_send : C → InRawMessage → C × Option InRawMessage) where
  -- `handler(…).await?`.
  handled : SessionState E C → E × Result (Unit {0}) Error → SessionState E C × Option CloseResult
  handled st (extension, ok _) = (record st { extension = extension }, none)
  handled st (extension, err e) = (record st { extension = extension }, some (err e))

  -- The result of the send; a message that comes back is dropped.
  sent_outgoing :
      Option (Option CloseFrame)
      → SessionState E C
      → (C × Option InRawMessage) × Signals
      → SessionState E C × Option CloseResult
  unfolding drop_raw
  sent_outgoing (some frame) st ((c, none), s) =
      (record st { channel = c; signals = s }, some (ok frame))
  sent_outgoing none st ((c, none), s) = (record st { channel = c; signals = s }, none)
  sent_outgoing (some frame) st ((c, some m), s) =
      (record st { channel = c; signals = drop_raw m s }, some (ok frame))
  sent_outgoing none st ((c, some m), s) =
      (record st { channel = c; signals = drop_raw m s }, some (ok none))

  on_incoming :
      Option (Result Message WsError) → SessionState E C → SessionState E C × Option CloseResult
  unfolding handled
  on_incoming (some (ok (Message.text s))) st = handled st (ext.on_text st.extension s)
  on_incoming (some (ok (Message.binary bytes))) st = handled st (ext.on_binary st.extension bytes)
  on_incoming (some (ok (Message.close frame))) st = (st, some (ok frame))
  on_incoming (some (err e)) st = (st, none)
  on_incoming none st = (st, some (ok none))

  -- One round of the loop; `none` goes on with it.
  unfoldable pub session_step : Branch A → SessionState E C → SessionState E C × Option CloseResult
  unfolding sent_outgoing on_incoming handled close_frame sink_send
  session_step (outgoing inmessage) st =
      sent_outgoing (close_frame inmessage.message) st
        (sink_send channel_send st.channel inmessage st.signals)
  session_step (called call) st = handled st (ext.on_call st.extension call)
  session_step (incoming message) st = on_incoming message st

  -- `SessionActor::run` over the rounds so far; `none` while it goes on.
  unfoldable pub session_run :
      List (Branch A) → SessionState E C → SessionState E C × Option CloseResult
  session_run [] st = (st, none)
  session_run (b ∷ bs) st =
      let (st', r) = session_step b st in
      elim r [ none ↦ session_run bs st' | some res ↦ (st', some res) ]
