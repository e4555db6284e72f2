-- ===== src/Wasm/Examples.antt =====
-- A close frame on its way through a browser, whose codes are numbers.
use ezsockets.Base.{Option, ap, none, refl, some, subst, ℕ, ◌≡◌}
use ezsockets.Socket.CloseCode.{CloseCode, from_u16, to_u16}
use ezsockets.Socket.Heartbeat.{default_ping}
use ezsockets.Socket.Message.{CloseFrame, Message, to_raw}
use ezsockets.Tungstenite.{from_tungstenite_code, to_tungstenite_code}
use ezsockets.Wasm.{WasmCodes, WasmMessage, from_wasm, message_to_wasm, to_wasm}
use ezsockets.Wasm.Conversions.{KeepsFrame, from_wasm-message_to_wasm}

abbrev number_codes : WasmCodes ℕ
number_codes = record {
  to_number = λ n. n;
  from_number = λ n. n;
  tungstenite_to_number = λ c. to_u16 (from_tungstenite_code c);
  tungstenite_from_number = λ n. to_tungstenite_code (from_u16 n);
  abnormal_code = 1006;
}

abbrev farewell : Option CloseFrame
farewell = some (record { code = CloseCode.away; reason = "bye" })

keeps :
    (f : Option CloseFrame) → Message.close farewell ≡ Message.close f → KeepsFrame number_codes f
unfolding to_u16 from_u16 from_tungstenite_code to_tungstenite_code
keeps f e = subst (KeepsFrame number_codes) (ap frame_of e) (λ n. refl, refl)
  where
    frame_of : Message → Option CloseFrame
    frame_of = elim [ Message.close f ↦ f | _ ↦ none ]

from_wasm-message_to_wasm_example :
    (from_wasm number_codes (message_to_wasm number_codes (Message.close farewell))
      ≡ to_raw (Message.close farewell))
    × (to_wasm number_codes (default_ping 0)
        ≡ WasmMessage.close (some (record { code = 1006; reason = "raw pings not supported" })))
from_wasm-message_to_wasm_example =
    from_wasm-message_to_wasm number_codes (Message.close farewell) 0 keeps
