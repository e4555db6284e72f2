-- ===== src/Wire.antt =====
-- A message's whole way, from the sink actor of one side (src/socket.rs) through the types of
-- src/tungstenite_common.rs to the stream actor of the other and into the loop of its session
-- (src/session.rs).
pub mod Carrying
pub mod Sending
pub mod Leg
pub mod Delivery
pub mod Queues
mod Examples
use ezsockets.Base.{List, Option, Result, [], err, none, ok, some, ◌∷◌, ◌≡◌}
use ezsockets.Error.{WsError}
use ezsockets.Session.{Branch}
use ezsockets.Session.Handlers.{Request, closing_out}
use ezsockets.Socket.Message.{CloseFrame, Message, RawMessage}
use ezsockets.Socket.Signal.{InRawMessage}
use ezsockets.Socket.Sink.{sink_send}
use ezsockets.Socket.Stream.{StreamEvent, ended, item}

-- The messages that the sender's websocket takes, up to its first failure.
module _ {M S : Type 0} (from_raw : RawMessage → M)
    (sink_send : S → M → S × Result (Unit {0}) WsError) where
  abbrev pub taken : List RawMessage → S → List RawMessage
  taken [] s = []
  taken (m ∷ ms) s =
      let (s', r) = sink_send s (from_raw m) in elim r [ ok _ ↦ m ∷ taken ms s' | err e ↦ [] ]

-- What the receiver's websocket yields before it ends.
abbrev pub yielded : {M : Type 0} → List (StreamEvent M) → List (Result M WsError)
yielded [] = []
yielded (item now r ∷ es) = r ∷ yielded es
yielded (ended ∷ es) = []

-- The messages of raw ones: without the pings and the pongs.
abbrev pub messages : List RawMessage → List Message
messages [] = []
messages (RawMessage.text s ∷ ms) = Message.text s ∷ messages ms
messages (RawMessage.binary bytes ∷ ms) = Message.binary bytes ∷ messages ms
messages (RawMessage.ping bytes ∷ ms) = messages ms
messages (RawMessage.pong bytes ∷ ms) = messages ms
messages (RawMessage.close f ∷ ms) = Message.close f ∷ messages ms

-- The messages before the first close message, and the frame of that one.
abbrev pub before_close : List Message → List Message
before_close [] = []
before_close (Message.close f ∷ ms) = []
before_close (m ∷ ms) = m ∷ before_close ms

abbrev pub close_of : List Message → Option (Option CloseFrame)
close_of [] = none
close_of (Message.close f ∷ ms) = some f
close_of (m ∷ ms) = close_of ms

module _ {A : Type 0} where
  -- What a session takes from its socket.
  abbrev pub incomings : List (Branch A) → List (Option (Result Message WsError))
  incomings [] = []
  incomings (Branch.outgoing m ∷ bs) = incomings bs
  incomings (Branch.called a ∷ bs) = incomings bs
  incomings (Branch.incoming r ∷ bs) = r ∷ incomings bs

  -- The session itself sends no close message.
  abbrev pub ClosesNothing : List (Branch A) → Type 0
  ClosesNothing [] = Unit {0}
  ClosesNothing (Branch.outgoing m ∷ bs) = (closing_out m.message ≡ none) × ClosesNothing bs
  ClosesNothing (Branch.called a ∷ bs) = ClosesNothing bs
  ClosesNothing (Branch.incoming r ∷ bs) = ClosesNothing bs

  -- The texts and the binaries among the requests to the handlers.
  abbrev pub conveyed : List (Request A) → List Message
  conveyed [] = []
  conveyed (Request.text s ∷ rs) = Message.text s ∷ conveyed rs
  conveyed (Request.binary bytes ∷ rs) = Message.binary bytes ∷ conveyed rs
  conveyed (Request.call a ∷ rs) = conveyed rs

  -- What a session sends.
  abbrev pub outgoings : List (Branch A) → List Message
  outgoings [] = []
  outgoings (Branch.outgoing m ∷ bs) = elim m.message [
    | none ↦ outgoings bs
    | some x ↦ x ∷ outgoings bs
  ]
  outgoings (Branch.called a ∷ bs) = outgoings bs
  outgoings (Branch.incoming r ∷ bs) = outgoings bs

-- The raw messages that a channel to a sink actor holds.
abbrev pub raws : List InRawMessage → List RawMessage
raws [] = []
raws (m ∷ ms) = elim m.message [ none ↦ raws ms | some x ↦ x ∷ raws ms ]
