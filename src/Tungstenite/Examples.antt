-- ===== src/Tungstenite/Examples.antt =====
-- Messages on their way through src/tungstenite_common.rs.
use ezsockets.Base.{some, ℕ, ◌↔◌, ◌≡◌}
use ezsockets.Socket.CloseCode.{CloseCode}
use ezsockets.Socket.Message.{CloseFrame, RawMessage}
use ezsockets.Tungstenite.{from_tungstenite, to_tungstenite}
use ezsockets.Tungstenite.Conversions.{from_tungstenite_iff}

abbrev farewell : CloseFrame
farewell = record { code = CloseCode.library 4001; reason = "bye" }

from_tungstenite_iff_example :
    let m = RawMessage.close (some farewell) in
    (from_tungstenite {F = ℕ} (to_tungstenite m) ≡ some m)
    ↔ (to_tungstenite {F = ℕ} m ≡ to_tungstenite m)
from_tungstenite_iff_example =
    from_tungstenite_iff ℕ (to_tungstenite (RawMessage.close (some farewell)))
      (RawMessage.close (some farewell))
