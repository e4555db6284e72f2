-- ===== src/Request/Examples.antt =====
-- Requests of a client with credentials.
use ezsockets.Base.{Option, [], refl, some, ℕ, ◌∷◌, ◌≡◌}
use ezsockets.Client.{ClientConfig, new_config}
use ezsockets.Request.{HeaderMap, Request, connect_http_request, name_eq}
use ezsockets.Request.Handshake.{LeavesHandshake, connect_http_request-Upgrades, received}
use ezsockets.Socket.Message.{Bytes}
use ezsockets.Upgrade.{HeaderName}
use ezsockets.Upgrade.Guards.{Upgrades}

abbrev address : Bytes
address = 119 ∷ 115 ∷ []

abbrev host_name : Bytes
host_name = 104 ∷ []

abbrev host_of : Bytes → Option Bytes
host_of url = some host_name

abbrev with_token : ClientConfig Bytes HeaderMap
with_token = record (new_config [] address) { headers = (HeaderName.authorization, 66 ∷ []) ∷ [] }

token-LeavesHandshake : LeavesHandshake with_token.headers
unfolding name_eq
token-LeavesHandshake = record {
  connection = (refl, tt);
  upgrade = (refl, tt);
  version = (refl, tt);
  key = (refl, tt);
}

abbrev config : ℕ
config = 0

connect_http_request-Upgrades_example :
    (req : Request) × (connect_http_request some host_of (1 ∷ []) with_token ≡ some req)
    × Upgrades config (received req config) (1 ∷ []) config
unfolding new_config
connect_http_request-Upgrades_example =
    connect_http_request-Upgrades some host_of config with_token address host_name (1 ∷ []) config
      refl refl token-LeavesHandshake
