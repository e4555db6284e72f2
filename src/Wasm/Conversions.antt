-- ===== src/Wasm/Conversions.antt =====
-- What the browser's websocket makes of messages.
use mathlib.Core.Option
use ezsockets.Base.{Option, ap, none, refl, some, ℕ, ◌≡◌}
use ezsockets.Socket.CloseCode.{CloseCode}
use ezsockets.Socket.Heartbeat.{default_ping}
use ezsockets.Socket.Message.{CloseFrame, Message, RawMessage, to_raw}
use ezsockets.Tungstenite.{to_tungstenite_code}
use ezsockets.Tungstenite.Conversions.{from-to_tungstenite_code}
use ezsockets.Wasm.{
  WasmCodes, WasmMessage, from_wasm, from_wasm_frame, message_to_wasm, to_wasm, to_wasm_frame,
}

module _ {K : Type 0} (codes : WasmCodes K) where
  -- The numbers of the close codes survive the third-party types: those of the browser's codes always,
  -- those of tungstenite's at this code.
  abbrev pub KeepsCode : CloseCode → Type 0
  KeepsCode c =
      ((n : ℕ) → codes.to_number (codes.from_number n) ≡ n)
      × (codes.tungstenite_from_number (codes.tungstenite_to_number (to_tungstenite_code c))
          ≡ to_tungstenite_code c)

  abbrev pub KeepsFrame : Option CloseFrame → Type 0
  KeepsFrame none = Unit {0}
  KeepsFrame (some f) = KeepsCode f.code

  frame_survives :
      (f : Option CloseFrame)
      → KeepsFrame f
      → Option.map (from_wasm_frame codes) (Option.map (to_wasm_frame codes) f) ≡ f
  unfolding from_wasm_frame to_wasm_frame
  frame_survives none k = refl
  frame_survives (some f) k = rw (k.0, k.1, from-to_tungstenite_code)

  -- A message survives the way through the browser's type, its close code included, where the
  -- third-party codes keep that code; and the default ping of the heartbeat, at any time, is not sent as
  -- such: it becomes a close message.
  pub from_wasm-message_to_wasm :
      (m : Message) (timestamp : ℕ)
      → ((f : Option CloseFrame) → m ≡ Message.close f → KeepsFrame f)
      → (from_wasm codes (message_to_wasm codes m) ≡ to_raw m)
        × (to_wasm codes (default_ping timestamp)
            ≡ WasmMessage.close
                (some (record { code = codes.abnormal_code; reason = "raw pings not supported" })))
  unfolding from_wasm message_to_wasm to_raw to_wasm default_ping
  from_wasm-message_to_wasm (Message.text s) timestamp k = (refl, refl)
  from_wasm-message_to_wasm (Message.binary bytes) timestamp k = (refl, refl)
  from_wasm-message_to_wasm (Message.close f) timestamp k =
      (ap RawMessage.close (frame_survives f (k f refl)), refl)
