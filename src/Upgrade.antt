-- ===== src/Upgrade.antt =====
-- The upgrade of an HTTP request in src/server_runners/axum_tungstenite.rs. The headers of a request
-- are a function, `HeaderMap::get`; the configuration `W` and the pending upgrade `U` are third-party
-- types, and so are the hash in `sign` and the checks of a `HeaderValue`.
pub mod Guards
pub mod Protocols
mod Examples
use ezsockets.Base.{
  Bool, List, Option, Result, [], err, false, if◌then◌else◌, none, not, ok, some, true, ℕ, ◌&&◌,
  ◌||◌, ◌∷◌,
}
use ezsockets.Socket.Heartbeat.{default_config}
use ezsockets.Socket.Message.{Bytes}
use ezsockets.Text.{
  bytes_eq, contains, eq_ignore_ascii_case, is_utf8, split, to_ascii_lowercase, trim,
}

pub data HeaderName : Type 0 where
  connection upgrade sec_websocket_version sec_websocket_key : HeaderName
  sec_websocket_protocol sec_websocket_accept authorization host : HeaderName
  other_header : ℕ → HeaderName

-- The methods that the code tells apart.
pub data Method : Type 0 where
  get other_method : Method

-- `Parts`, with the `OnUpgrade` of its extensions.
pub record Parts (U : Type 0) : Type 0 where
  pub method : Method
  pub headers : HeaderName → Option Bytes
  pub on_upgrade : Option U

-- `WebSocketUpgradeRejection`.
pub data Rejection : Type 0 where
  method_not_get invalid_connection_header invalid_upgrade_header : Rejection
  invalid_web_socket_version_header web_socket_key_header_missing : Rejection
  connection_not_upgradable : Rejection

-- The status of the response to a rejection.
unfoldable pub rejection_status : Rejection → ℕ
rejection_status method_not_get = 405
rejection_status invalid_connection_header = 400
rejection_status invalid_upgrade_header = 400
rejection_status invalid_web_socket_version_header = 400
rejection_status web_socket_key_header_missing = 400
rejection_status connection_not_upgradable = 426

-- The callback for a failed upgrade is left out: only the spawned task reads it.
pub record WebSocketUpgrade (W U : Type 0) : Type 0 where
  pub config : W
  pub protocol : Option Bytes
  pub sec_websocket_key : Bytes
  pub on_upgrade : U
  pub sec_websocket_protocol : Option Bytes

-- "upgrade", "websocket" and "13".
abbrev pub upgrade_token : Bytes
upgrade_token = 117 ∷ 112 ∷ 103 ∷ 114 ∷ 97 ∷ 100 ∷ 101 ∷ []

abbrev pub websocket_token : Bytes
websocket_token = 119 ∷ 101 ∷ 98 ∷ 115 ∷ 111 ∷ 99 ∷ 107 ∷ 101 ∷ 116 ∷ []

abbrev pub version_token : Bytes
version_token = 49 ∷ 51 ∷ []

unfoldable pub header_eq : {U : Type 0} → Parts U → HeaderName → Bytes → Bool
header_eq req key value = elim (req.headers key) [
  | some header ↦ eq_ignore_ascii_case header value
  | none ↦ false
]

unfoldable pub header_contains : {U : Type 0} → Parts U → HeaderName → Bytes → Bool
header_contains req key value = elim (req.headers key) [
  | some header ↦ is_utf8 header && contains (to_ascii_lowercase header) value
  | none ↦ false
]

is_get : Method → Bool
is_get get = true
is_get other_method = false

module _ {W U : Type 0} (default_config : W) where
  -- The rest of `from_request_parts` once the headers are right: the key, and the pending upgrade,
  -- which is removed from the request.
  take_upgrade :
      Option Bytes → Option U → Parts U → Parts U × Result (WebSocketUpgrade W U) Rejection
  take_upgrade none upgrading parts = (parts, err web_socket_key_header_missing)
  take_upgrade (some key) none parts = (parts, err connection_not_upgradable)
  take_upgrade (some key) (some upgrading) parts = (
    record parts { on_upgrade = none },
    ok (record {
      config = default_config;
      protocol = none;
      sec_websocket_key = key;
      on_upgrade = upgrading;
      sec_websocket_protocol = parts.headers sec_websocket_protocol;
    }),
  )

  -- `from_request_parts`, with the request that it leaves.
  unfoldable pub from_request_parts : Parts U → Parts U × Result (WebSocketUpgrade W U) Rejection
  unfolding take_upgrade is_get header_eq header_contains
  from_request_parts parts =
      if not (is_get parts.method)
      then (parts, err method_not_get)
      else if not (header_contains parts connection upgrade_token)
      then (parts, err invalid_connection_header)
      else if not (header_eq parts upgrade websocket_token)
      then (parts, err invalid_upgrade_header)
      else if not (header_eq parts sec_websocket_version version_token)
      then (parts, err invalid_web_socket_version_header)
      else take_upgrade (parts.headers sec_websocket_key) parts.on_upgrade parts

-- `Iterator::any` at `|req_protocol| req_protocol.trim() == protocol`.
unfoldable pub any_trimmed : Bytes → List Bytes → Bool
any_trimmed protocol [] = false
any_trimmed protocol (offered ∷ rest) =
    let found = any_trimmed protocol rest in bytes_eq (trim offered) protocol || found

-- `Iterator::find` of the first protocol that the client offers.
unfoldable pub find_offered : Bytes → List Bytes → Option Bytes
find_offered req_protocols [] = none
find_offered req_protocols (protocol ∷ rest) =
    let found = find_offered req_protocols rest in
    if any_trimmed protocol (split 44 req_protocols) then some protocol else found

-- `.as_ref().and_then(|p| p.to_str().ok())`.
readable : (Bytes → Option Bytes) → Option Bytes → Option Bytes
readable to_str none = none
readable to_str (some header) = to_str header

-- `HeaderValue::to_str(…).ok()`, and `HeaderValue::from_str` or `from_static`, where `none` panics.
module _ {W U : Type 0} (to_str : Bytes → Option Bytes) (from_str : Bytes → Option Bytes) where
  set_protocol : Option Bytes → WebSocketUpgrade W U → Option (WebSocketUpgrade W U)
  set_protocol none ws = some (record ws { protocol = none })
  set_protocol (some protocol) ws = elim (from_str protocol) [
    | none ↦ none
    | some value ↦ some (record ws { protocol = some value })
  ]

  -- `WebSocketUpgrade::protocols`; `none` is its panic.
  unfoldable pub protocols : List Bytes → WebSocketUpgrade W U → Option (WebSocketUpgrade W U)
  unfolding readable set_protocol find_offered
  protocols known ws = elim (readable to_str ws.sec_websocket_protocol) [
    | none ↦ some ws
    | some req_protocols ↦ set_protocol (find_offered req_protocols known) ws
  ]

-- The response of `on_upgrade`: the status and the headers, which have different names.
pub record Response : Type 0 where
  pub status_code : ℕ
  pub response_headers : List (HeaderName × Bytes)

protocol_header : Option Bytes → List (HeaderName × Bytes)
protocol_header none = []
protocol_header (some protocol) = (sec_websocket_protocol, protocol) ∷ []

module _ {W U : Type 0} (sign : Bytes → Bytes) where
  -- The response that `on_upgrade` returns.
  unfoldable pub upgrade_response : WebSocketUpgrade W U → Response
  unfolding protocol_header
  upgrade_response ws = record {
    status_code = 101;
    response_headers =
        (connection, upgrade_token)
        ∷ (upgrade, websocket_token)
        ∷ (sec_websocket_accept, sign ws.sec_websocket_key)
        ∷ protocol_header ws.protocol;
  }
