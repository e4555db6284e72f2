-- ===== src/Tungstenite.antt =====
-- src/tungstenite_common.rs: the conversions to and from the types of the crate `tungstenite`,
-- which have the variants that the source matches on.
pub mod Conversions
mod Examples
use mathlib.Core.Option
use ezsockets.Base.{Option, none, some, ℕ}
use ezsockets.Socket.CloseCode.{CloseCode}
use ezsockets.Socket.Message.{Bytes, CloseFrame, Message, RawMessage, Utf8Bytes}

pub data TungsteniteCloseCode : Type 0 where
  normal away protocol unsupported status abnormal invalid policy : TungsteniteCloseCode
  size extension error restart again tls : TungsteniteCloseCode
  reserved iana library bad : ℕ → TungsteniteCloseCode

pub record TungsteniteCloseFrame : Type 0 where
  pub code : TungsteniteCloseCode
  pub reason : Utf8Bytes

-- `F` is the type of raw frames.
pub data TungsteniteMessage (F : Type 0) : Type 0 where
  text : Utf8Bytes → TungsteniteMessage F
  binary : Bytes → TungsteniteMessage F
  ping : Bytes → TungsteniteMessage F
  pong : Bytes → TungsteniteMessage F
  close : Option TungsteniteCloseFrame → TungsteniteMessage F
  frame : F → TungsteniteMessage F

-- `From<CloseCode> for TungsteniteCloseCode`.
unfoldable pub to_tungstenite_code : CloseCode → TungsteniteCloseCode
to_tungstenite_code CloseCode.normal = TungsteniteCloseCode.normal
to_tungstenite_code CloseCode.away = TungsteniteCloseCode.away
to_tungstenite_code CloseCode.protocol = TungsteniteCloseCode.protocol
to_tungstenite_code CloseCode.unsupported = TungsteniteCloseCode.unsupported
to_tungstenite_code CloseCode.status = TungsteniteCloseCode.status
to_tungstenite_code CloseCode.abnormal = TungsteniteCloseCode.abnormal
to_tungstenite_code CloseCode.invalid = TungsteniteCloseCode.invalid
to_tungstenite_code CloseCode.policy = TungsteniteCloseCode.policy
to_tungstenite_code CloseCode.size = TungsteniteCloseCode.size
to_tungstenite_code CloseCode.extension = TungsteniteCloseCode.extension
to_tungstenite_code CloseCode.error = TungsteniteCloseCode.error
to_tungstenite_code CloseCode.restart = TungsteniteCloseCode.restart
to_tungstenite_code CloseCode.again = TungsteniteCloseCode.again
to_tungstenite_code CloseCode.tls = TungsteniteCloseCode.tls
to_tungstenite_code (CloseCode.reserved code) = TungsteniteCloseCode.reserved code
to_tungstenite_code (CloseCode.iana code) = TungsteniteCloseCode.iana code
to_tungstenite_code (CloseCode.library code) = TungsteniteCloseCode.library code
to_tungstenite_code (CloseCode.bad code) = TungsteniteCloseCode.bad code

-- `From<TungsteniteCloseCode> for CloseCode`.
unfoldable pub from_tungstenite_code : TungsteniteCloseCode → CloseCode
from_tungstenite_code TungsteniteCloseCode.normal = CloseCode.normal
from_tungstenite_code TungsteniteCloseCode.away = CloseCode.away
from_tungstenite_code TungsteniteCloseCode.protocol = CloseCode.protocol
from_tungstenite_code TungsteniteCloseCode.unsupported = CloseCode.unsupported
from_tungstenite_code TungsteniteCloseCode.status = CloseCode.status
from_tungstenite_code TungsteniteCloseCode.abnormal = CloseCode.abnormal
from_tungstenite_code TungsteniteCloseCode.invalid = CloseCode.invalid
from_tungstenite_code TungsteniteCloseCode.policy = CloseCode.policy
from_tungstenite_code TungsteniteCloseCode.size = CloseCode.size
from_tungstenite_code TungsteniteCloseCode.extension = CloseCode.extension
from_tungstenite_code TungsteniteCloseCode.error = CloseCode.error
from_tungstenite_code TungsteniteCloseCode.restart = CloseCode.restart
from_tungstenite_code TungsteniteCloseCode.again = CloseCode.again
from_tungstenite_code TungsteniteCloseCode.tls = CloseCode.tls
from_tungstenite_code (TungsteniteCloseCode.reserved code) = CloseCode.reserved code
from_tungstenite_code (TungsteniteCloseCode.iana code) = CloseCode.iana code
from_tungstenite_code (TungsteniteCloseCode.library code) = CloseCode.library code
from_tungstenite_code (TungsteniteCloseCode.bad code) = CloseCode.bad code

-- `From<CloseFrame> for tungstenite::protocol::CloseFrame`.
unfoldable pub to_tungstenite_frame : CloseFrame → TungsteniteCloseFrame
to_tungstenite_frame f = record { code = to_tungstenite_code f.code; reason = f.reason }

-- `From<tungstenite::protocol::CloseFrame> for CloseFrame`.
unfoldable pub from_tungstenite_frame : TungsteniteCloseFrame → CloseFrame
from_tungstenite_frame f = record { code = from_tungstenite_code f.code; reason = f.reason }

module _ {F : Type 0} where
  -- `From<RawMessage> for tungstenite::Message`.
  unfoldable pub to_tungstenite : RawMessage → TungsteniteMessage F
  to_tungstenite (RawMessage.text s) = text s
  to_tungstenite (RawMessage.binary bytes) = binary bytes
  to_tungstenite (RawMessage.ping bytes) = ping bytes
  to_tungstenite (RawMessage.pong bytes) = pong bytes
  to_tungstenite (RawMessage.close f) = close (Option.map to_tungstenite_frame f)

  -- `From<tungstenite::Message> for RawMessage`; `none` is the panic of `unreachable!()`.
  unfoldable pub from_tungstenite : TungsteniteMessage F → Option RawMessage
  from_tungstenite (text s) = some (RawMessage.text s)
  from_tungstenite (binary bytes) = some (RawMessage.binary bytes)
  from_tungstenite (ping bytes) = some (RawMessage.ping bytes)
  from_tungstenite (pong bytes) = some (RawMessage.pong bytes)
  from_tungstenite (close f) = some (RawMessage.close (Option.map from_tungstenite_frame f))
  from_tungstenite (frame f) = none

  -- `From<Message> for tungstenite::Message`.
  unfoldable pub message_to_tungstenite : Message → TungsteniteMessage F
  message_to_tungstenite (Message.text s) = text s
  message_to_tungstenite (Message.binary bytes) = binary bytes
  message_to_tungstenite (Message.close f) = close (Option.map to_tungstenite_frame f)
