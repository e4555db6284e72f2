-- ===== src/Wasm.antt =====
-- The conversions of src/client_connectors/client_connector_wasm.rs. The close codes `K` of the crate
-- `tokio_tungstenite_wasm` and their conversions are arguments, and so are those of tungstenite's close
-- codes to and from u16. The two kinds of `Utf8Bytes` hold the same texts, so that their conversions
-- are the identity.
use mathlib.Core.Option
pub mod Conversions
mod Examples
use ezsockets.Base.{Option, some, ℕ}
use ezsockets.Socket.Message.{Bytes, CloseFrame, Message, RawMessage, Utf8Bytes}
use ezsockets.Tungstenite.{TungsteniteCloseCode, from_tungstenite_code, to_tungstenite_code}

pub record WasmCloseFrame (K : Type 0) : Type 0 where
  pub code : K
  pub reason : Utf8Bytes

pub data WasmMessage (K : Type 0) : Type 0 where
  text : Utf8Bytes → WasmMessage K
  binary : Bytes → WasmMessage K
  close : Option (WasmCloseFrame K) → WasmMessage K

-- The conversions of close codes, and `tokio_tungstenite_wasm::CloseCode::Abnormal`.
pub record WasmCodes (K : Type 0) : Type 0 where
  pub to_number : K → ℕ
  pub from_number : ℕ → K
  pub tungstenite_to_number : TungsteniteCloseCode → ℕ
  pub tungstenite_from_number : ℕ → TungsteniteCloseCode
  pub abnormal_code : K

module _ {K : Type 0} (codes : WasmCodes K) where
  unfoldable pub from_wasm_frame : WasmCloseFrame K → CloseFrame
  from_wasm_frame f = record {
    code = from_tungstenite_code (codes.tungstenite_from_number (codes.to_number f.code));
    reason = f.reason;
  }

  unfoldable pub to_wasm_frame : CloseFrame → WasmCloseFrame K
  to_wasm_frame f = record {
    code = codes.from_number (codes.tungstenite_to_number (to_tungstenite_code f.code));
    reason = f.reason;
  }

  -- `From<RawMessage>`: pings and pongs are not supported.
  unfoldable pub to_wasm : RawMessage → WasmMessage K
  unfolding to_wasm_frame
  to_wasm (RawMessage.text s) = WasmMessage.text s
  to_wasm (RawMessage.binary bytes) = WasmMessage.binary bytes
  to_wasm (RawMessage.ping bytes) =
      WasmMessage.close
        (some (record { code = codes.abnormal_code; reason = "raw pings not supported" }))
  to_wasm (RawMessage.pong bytes) =
      WasmMessage.close
        (some (record { code = codes.abnormal_code; reason = "raw pongs not supported" }))
  to_wasm (RawMessage.close f) = WasmMessage.close (Option.map to_wasm_frame f)

  unfoldable pub from_wasm : WasmMessage K → RawMessage
  unfolding from_wasm_frame
  from_wasm (WasmMessage.text s) = RawMessage.text s
  from_wasm (WasmMessage.binary bytes) = RawMessage.binary bytes
  from_wasm (WasmMessage.close f) = RawMessage.close (Option.map from_wasm_frame f)

  -- `From<Message>`.
  unfoldable pub message_to_wasm : Message → WasmMessage K
  unfolding to_wasm_frame
  message_to_wasm (Message.text s) = WasmMessage.text s
  message_to_wasm (Message.binary bytes) = WasmMessage.binary bytes
  message_to_wasm (Message.close f) = WasmMessage.close (Option.map to_wasm_frame f)
