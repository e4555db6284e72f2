-- ===== src/Upgrade/Guards.antt =====
-- Which requests src/server_runners/axum_tungstenite.rs upgrades.
use ezsockets.Base.{
  Option-cases, Result-cases, ap, arith, err, inl, inr, none, ok, refl, some, true, ◌++◌, ◌↔◌, ◌≡◌,
  ◌≢◌, ◌⊎◌,
}
use ezsockets.Socket.Message.{Bytes}
use ezsockets.Text.{contains, is_utf8, to_ascii_lowercase}
use ezsockets.Text.Laws.{contains_iff, eq_ignore_ascii_case_iff}
use ezsockets.Upgrade.{
  take_upgrade, HeaderName, Parts, Rejection, WebSocketUpgrade, connection,
  connection_not_upgradable, from_request_parts, get, header_contains, header_eq, rejection_status,
  sec_websocket_key, sec_websocket_protocol, sec_websocket_version, upgrade, upgrade_token,
  version_token, websocket_token,
}

-- A header names a token, whatever the case of its letters.
abbrev Names : {U : Type 0} → Parts U → HeaderName → Bytes → Type 0
Names parts key value =
    (header : Bytes) × (parts.headers key ≡ some header)
    × (to_ascii_lowercase header ≡ to_ascii_lowercase value)

-- The handshake of RFC 6455: a GET request whose `Connection` header is a text that holds "upgrade",
-- whose `Upgrade` header is "websocket" and whose version is 13, with a key and a connection to take
-- over.
pub record IsHandshake {U : Type 0} (parts : Parts U) (key : Bytes) (upgrading : U) : Type 0 where
  pub is_get : parts.method ≡ get
  pub asks_upgrade :
      (header : Bytes) × (before : Bytes) × (after : Bytes) × (parts.headers connection
        ≡ some header)
      × (is_utf8 header ≡ true)
      × (to_ascii_lowercase header ≡ before ++ upgrade_token ++ after)
  pub to_websocket : Names parts upgrade websocket_token
  pub of_version_13 : Names parts sec_websocket_version version_token
  pub has_key : parts.headers sec_websocket_key ≡ some key
  pub upgradable : parts.on_upgrade ≡ some upgrading

header_eq-Names :
    {U : Type 0} (parts : Parts U) (key : HeaderName) (value : Bytes)
    → (header_eq parts key value ≡ true) ↔ Names parts key value
unfolding header_eq
header_eq-Names parts key value = (
  λ h. elim (Option-cases (parts.headers key)) [
    | inl e ↦ absurd (ground arith)
    | inr (header, e) ↦ (header, e, (eq_ignore_ascii_case_iff header value).0 (ground arith))
  ],
  λ h. let (header, e, q) = h in ground (arith, (eq_ignore_ascii_case_iff header value).1 q),
)

header_contains_iff :
    {U : Type 0} (parts : Parts U) (key : HeaderName) (value : Bytes)
    → (header_contains parts key value ≡ true) ↔ (
        (header : Bytes) × (before : Bytes) × (after : Bytes) × (parts.headers key ≡ some header)
        × (is_utf8 header ≡ true)
        × (to_ascii_lowercase header ≡ before ++ value ++ after))
unfolding header_contains
header_contains_iff parts key value = (
  λ h. elim (Option-cases (parts.headers key)) [
    | inl e ↦ absurd (ground arith)
    | inr (header, e) ↦
        let c : contains (to_ascii_lowercase header) value ≡ true = ground arith in
        let (before, after, q) = (contains_iff (to_ascii_lowercase header) value).0 c in
        (header, before, after, e, ground arith, q)
  ],
  λ h.
      let (header, before, after, e, u, q) = h in
      ground (arith, (contains_iff (to_ascii_lowercase header) value).1 (before, after, q)),
)

module _ {W U : Type 0} (default_config : W) where
  -- The upgrade that a request with this key and this pending connection gives.
  abbrev pub Upgrades : Parts U → Bytes → U → Type 0
  Upgrades parts key upgrading =
      (ws : WebSocketUpgrade W U) × ((from_request_parts default_config parts).1 ≡ ok ws)
      × (ws.sec_websocket_key ≡ key)
      × (ws.on_upgrade ≡ upgrading)

  accepts :
      (parts : Parts U) (key : Bytes) (upgrading : U)
      → IsHandshake parts key upgrading
      → Upgrades parts key upgrading
  unfolding from_request_parts
  accepts parts key upgrading h =
      let c = (header_contains_iff parts connection upgrade_token).1 h.asks_upgrade in
      let u = (header_eq-Names parts upgrade websocket_token).1 h.to_websocket in
      let v = (header_eq-Names parts sec_websocket_version version_token).1 h.of_version_13 in
      let taken = take_upgrade default_config (some key) (some upgrading) parts in
      let run : from_request_parts default_config parts ≡ taken =
        ground (arith, c, u, v, h.is_get, h.has_key, h.upgradable) in
      (
        record {
          config = default_config;
          protocol = none;
          sec_websocket_key = key;
          on_upgrade = upgrading;
          sec_websocket_protocol = parts.headers sec_websocket_protocol;
        },
        ap (λ p. p.1) run,
        refl,
        refl,
      )

  guards :
      (parts : Parts U) (key : Bytes) (upgrading : U)
      → Upgrades parts key upgrading
      → (parts.method ≡ get)
        × (header_contains parts connection upgrade_token ≡ true)
        × (header_eq parts upgrade websocket_token ≡ true)
        × (header_eq parts sec_websocket_version version_token ≡ true)
        × (parts.headers sec_websocket_key ≡ some key)
        × (parts.on_upgrade ≡ some upgrading)
  unfolding from_request_parts
  guards parts key upgrading (ws, r, k, p) = ground arith

  requires :
      (parts : Parts U) (key : Bytes) (upgrading : U)
      → Upgrades parts key upgrading
      → IsHandshake parts key upgrading
  requires parts key upgrading h =
      let (m, c, u, v, k, p) = guards parts key upgrading h in
      record {
        is_get = m;
        asks_upgrade = (header_contains_iff parts connection upgrade_token).0 c;
        to_websocket = (header_eq-Names parts upgrade websocket_token).0 u;
        of_version_13 = (header_eq-Names parts sec_websocket_version version_token).0 v;
        has_key = k;
        upgradable = p;
      }

  -- A request is upgraded exactly when it is the handshake of a websocket, whatever the case of the
  -- letters in its headers, and then with its own key and its own connection.
  pub from_request_parts_iff :
      (parts : Parts U) (key : Bytes) (upgrading : U)
      → Upgrades parts key upgrading ↔ IsHandshake parts key upgrading
  from_request_parts_iff parts key upgrading =
      (requires parts key upgrading, accepts parts key upgrading)

  refused_keeps :
      (parts : Parts U) (e : Rejection)
      → (from_request_parts default_config parts).1 ≡ err e
      → (from_request_parts default_config parts).0 ≡ parts
  unfolding from_request_parts
  refused_keeps parts e h = ground arith

  upgraded_consumes :
      (parts : Parts U) (ws : WebSocketUpgrade W U)
      → (from_request_parts default_config parts).1 ≡ ok ws
      → (from_request_parts default_config (from_request_parts default_config parts).0).1
        ≡ err connection_not_upgradable
  unfolding from_request_parts header_contains header_eq
  upgraded_consumes parts ws h = ground arith

  -- A request that is refused keeps its connection, and all else: another extractor can still take it.
  -- One that is upgraded has lost its connection, so that a second upgrade is refused.
  pub from_request_parts_consumes :
      (parts : Parts U)
      → let (left, r) = from_request_parts default_config parts in
        ((e : Rejection) × (r ≡ err e) × (left ≡ parts))
        ⊎ ((ws : WebSocketUpgrade W U) × (r ≡ ok ws)
            × ((from_request_parts default_config left).1 ≡ err connection_not_upgradable))
  from_request_parts_consumes parts =
      elim (Result-cases (from_request_parts default_config parts).1) [
        | inl (ws, h) ↦ inr (ws, h, upgraded_consumes parts ws h)
        | inr (e, h) ↦ inl (e, h, refused_keeps parts e h)
      ]

  -- The status of a refusal tells the client what to mend. It is 405 exactly if the method is not GET;
  -- it is 426 exactly if the request passes every check of its headers but nothing is there to be
  -- upgraded; else it is 400.
  pub refusal_status :
      (parts : Parts U) (e : Rejection)
      → (from_request_parts default_config parts).1 ≡ err e
      → ((rejection_status e ≡ 405) ↔ (parts.method ≢ get))
        × ((rejection_status e ≡ 426) ↔ (
            (parts.method ≡ get)
            × (header_contains parts connection upgrade_token ≡ true)
            × (header_eq parts upgrade websocket_token ≡ true)
            × (header_eq parts sec_websocket_version version_token ≡ true)
            × (parts.headers sec_websocket_key ≢ none)
            × (parts.on_upgrade ≡ none)))
        × ((rejection_status e ≡ 405) ⊎ (rejection_status e ≡ 426) ⊎ (rejection_status e ≡ 400))
  unfolding from_request_parts rejection_status
  refusal_status parts e h = ground arith
