-- ===== src/Axum/Rebuilding.antt =====
-- The request that src/server_runners/axum.rs hands to the server is the one that came.
use ezsockets.Axum.{extract, Incoming, upgrade_from_request_parts, upgrade_parts}
use ezsockets.Base.{Bool, arith, ok, some, true, ◌≡◌}
use ezsockets.Request.{HttpRequest}
use ezsockets.Request.Rebuilding.{pure_request_same}
use ezsockets.Upgrade.{WebSocketUpgrade, from_request_parts}

-- `WebSocketUpgrade` decides alike, and its upgrade comes with the address and the request.
module _ {V D U W : Type 0} (ws_config : W) (body_ok : HttpRequest V → Bool) where
  pub upgrade_from_request_parts-ok :
      (parts : Incoming V D U) (address : D) (ws : WebSocketUpgrade W U)
      → parts.connect_info ≡ some address
      → body_ok parts.request ≡ true
      → (from_request_parts ws_config (upgrade_parts parts)).1 ≡ ok ws
      → (left : Incoming V D U) × (upgrade_from_request_parts ws_config body_ok parts
          ≡ some (left, ok (record { ws = ws; address = address; request = parts.request })))
  unfolding upgrade_from_request_parts extract
  upgrade_from_request_parts-ok parts address ws i b r = (
    record parts { on_upgrade = (from_request_parts ws_config (upgrade_parts parts)).0.on_upgrade },
    ground (arith, pure_request_same parts.request),
  )
