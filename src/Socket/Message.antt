-- ===== src/Socket/Message.antt =====
-- The messages of src/socket.rs. `Bytes` and `Utf8Bytes` are the buffers of the crates `bytes` and
-- `tungstenite`: a list of bytes and a text.
use ezsockets.Base.{List, Option, String, ℕ}
use ezsockets.Socket.CloseCode.{CloseCode}

abbrev pub Bytes : Type 0
Bytes = List ℕ

abbrev pub Utf8Bytes : Type 0
Utf8Bytes = String

pub record CloseFrame : Type 0 where
  pub code : CloseCode
  pub reason : Utf8Bytes

pub data Message : Type 0 where
  text : Utf8Bytes → Message
  binary : Bytes → Message
  close : Option CloseFrame → Message

pub data RawMessage : Type 0 where
  text : Utf8Bytes → RawMessage
  binary : Bytes → RawMessage
  ping : Bytes → RawMessage
  pong : Bytes → RawMessage
  close : Option CloseFrame → RawMessage

-- `From<Message> for RawMessage`.
unfoldable pub to_raw : Message → RawMessage
to_raw (Message.text s) = RawMessage.text s
to_raw (Message.binary bytes) = RawMessage.binary bytes
to_raw (Message.close frame) = RawMessage.close frame
