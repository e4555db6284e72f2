-- ===== src/Handle.antt =====
-- The sending half of `Client` (src/client.rs) and `Session` (src/session.rs): their `text`, `binary`
-- and `close` share one body. The channel is third-party code, of type `C`; `some m` is the message
-- that `SendError` gives back.
pub mod Laws
use ezsockets.Base.{Option, Result, err, none, ok, some}
use ezsockets.Socket.Message.{Bytes, CloseFrame, Message, Utf8Bytes}
use ezsockets.Socket.Signal.{InMessage, MessageSignal, Signals, clone_signal, new_message}

-- The channel after the call, the store of the signals, and `Ok(signal)` or `Err(SendError(m))`.
abbrev pub Posted : Type 0 → Type 0
Posted C = C × Signals × Result MessageSignal InMessage

-- `.map(|_| inmessage_signal)`.
map_signal : MessageSignal → Option InMessage → Result MessageSignal InMessage
map_signal signal none = ok signal
map_signal signal (some m) = err m

module _ {C : Type 0} (channel_send : C → InMessage → C × Option InMessage) where
  -- `inmessage.clone_signal().unwrap()`, `send`, `map`; `none` is the panic of `unwrap`.
  send_inmessage : Option MessageSignal → InMessage → C → Signals → Option (Posted C)
  unfolding map_signal
  send_inmessage none m c s = none
  send_inmessage (some signal) m c s =
      let (c', r) = channel_send c m in some (c', s, map_signal signal r)

  unfoldable pub post : Message → C → Signals → Option (Posted C)
  unfolding send_inmessage new_message clone_signal
  post message c s = let (m, s') = new_message message s in send_inmessage (clone_signal m) m c s'

  -- `Session::text` and `Client::text`.
  unfoldable pub text : Utf8Bytes → C → Signals → Option (Posted C)
  unfolding post
  text s = post (Message.text s)

  -- `Session::binary` and `Client::binary`.
  unfoldable pub binary : Bytes → C → Signals → Option (Posted C)
  unfolding post
  binary bytes = post (Message.binary bytes)

  -- `Session::close` and `Client::close`.
  unfoldable pub close : Option CloseFrame → C → Signals → Option (Posted C)
  unfolding post
  close frame = post (Message.close frame)
