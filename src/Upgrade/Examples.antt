-- ===== src/Upgrade/Examples.antt =====
-- A handshake, one that is refused, and the choice of a protocol.
use ezsockets.Base.{List, Option, [], none, refl, some, ℕ, ◌++◌, ◌↔◌, ◌∷◌, ◌≡◌, ◌⊎◌}
use ezsockets.Socket.Message.{Bytes}
use ezsockets.Text.{
  contains, eq_ignore_ascii_case, is_utf8, starts_with, to_ascii_lowercase, to_lower,
}
use ezsockets.Upgrade.{
  HeaderName, Parts, WebSocketUpgrade, from_request_parts, get, protocols, upgrade_response,
  upgrade_token, version_token, websocket_token,
}
use ezsockets.Upgrade.Guards.{IsHandshake, Upgrades, from_request_parts_iff}
use ezsockets.Upgrade.Protocols.{IsOffered, NoneOffered, protocols-upgrade_response}

-- "keep-alive, Upgrade".
abbrev keep_alive_upgrade : Bytes
keep_alive_upgrade =
    107 ∷ 101 ∷ 101 ∷ 112 ∷ 45 ∷ 97 ∷ 108 ∷ 105 ∷ 118 ∷ 101 ∷ 44 ∷ 32 ∷ 85 ∷ 112 ∷ 103 ∷ 114 ∷ 97
    ∷ 100 ∷ 101 ∷ []

-- "chat, soap", "soap" and "wamp".
abbrev chat_soap : Bytes
chat_soap = 99 ∷ 104 ∷ 97 ∷ 116 ∷ 44 ∷ 32 ∷ 115 ∷ 111 ∷ 97 ∷ 112 ∷ []

abbrev soap : Bytes
soap = 115 ∷ 111 ∷ 97 ∷ 112 ∷ []

abbrev wamp : Bytes
wamp = 119 ∷ 97 ∷ 109 ∷ 112 ∷ []

abbrev config : ℕ
config = 0

abbrev some_headers : HeaderName → Option Bytes
some_headers HeaderName.connection = some keep_alive_upgrade
some_headers HeaderName.upgrade = some websocket_token
some_headers HeaderName.sec_websocket_version = some version_token
some_headers HeaderName.sec_websocket_key = some (1 ∷ 2 ∷ [])
some_headers HeaderName.sec_websocket_protocol = some chat_soap
some_headers _ = none

abbrev handshake : Parts ℕ
handshake = record { method = get; headers = some_headers; on_upgrade = some 4 }

from_request_parts_iff_example :
    Upgrades config handshake (1 ∷ 2 ∷ []) 4 ↔ IsHandshake handshake (1 ∷ 2 ∷ []) 4
from_request_parts_iff_example = from_request_parts_iff config handshake (1 ∷ 2 ∷ []) 4

-- The other side of the equivalence holds.
handshake-Upgrades : Upgrades config handshake (1 ∷ 2 ∷ []) 4
unfolding from_request_parts is_utf8 contains to_ascii_lowercase eq_ignore_ascii_case starts_with
    to_lower
handshake-Upgrades = (
  record {
    config = config;
    protocol = none;
    sec_websocket_key = 1 ∷ 2 ∷ [];
    on_upgrade = 4;
    sec_websocket_protocol = some chat_soap;
  },
  refl,
  refl,
  refl,
)

abbrev offer : WebSocketUpgrade ℕ ℕ
offer = record {
  config = config;
  protocol = none;
  sec_websocket_key = 1 ∷ 2 ∷ [];
  on_upgrade = 4;
  sec_websocket_protocol = some chat_soap;
}

abbrev as_is : Bytes → Bytes
as_is key = key

protocols-upgrade_response_example :
    (ws : WebSocketUpgrade ℕ ℕ) × (protocols some some (wamp ∷ soap ∷ []) offer ≡ some ws)
    × (let named = λ (rest : List (HeaderName × Bytes)).
          (upgrade_response as_is ws).response_headers
          ≡ (HeaderName.connection, upgrade_token)
            ∷ (HeaderName.upgrade, websocket_token)
            ∷ (HeaderName.sec_websocket_accept, 1 ∷ 2 ∷ [])
            ∷ rest in
        (named [] × NoneOffered chat_soap (wamp ∷ soap ∷ []))
        ⊎ ((before : List Bytes) × (p : Bytes) × (after : List Bytes) × named
              ((HeaderName.sec_websocket_protocol, p) ∷ [])
            × (wamp ∷ soap ∷ [] ≡ before ++ p ∷ after)
            × IsOffered chat_soap p
            × NoneOffered chat_soap before))
protocols-upgrade_response_example =
    protocols-upgrade_response some some as_is (wamp ∷ soap ∷ []) offer chat_soap chat_soap refl
      refl (λ before p after e. refl)
