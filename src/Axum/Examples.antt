-- ===== src/Axum/Examples.antt =====
-- A client's request, served through axum.
use ezsockets.Axum.{AxumUpgrade, Incoming, WebSocket, on_upgrade, upgrade_from_request_parts}
use ezsockets.Axum.Serving.{arrived, connect_http_request-on_upgrade, delivered}
use ezsockets.Base.{Bool, List, Option, [], err, ok, refl, some, true, ℕ, ◌++◌, ◌+◌, ◌∷◌, ◌≡◌}
use ezsockets.Client.{ClientConfig, ClientSocket, new_config}
use ezsockets.Request.{
  HeaderMap, HttpRequest, Request, connect_http_request, fixed_headers, insert_all, insert_header,
  name_eq,
}
use ezsockets.Request.Handshake.{LeavesHandshake}
use ezsockets.Server.{ServerExt}
use ezsockets.Server.System.{Reach, System, start}
use ezsockets.Socket.Message.{Bytes}
use ezsockets.Upgrade.{HeaderName, get, upgrade_token, websocket_token}

abbrev address : Bytes
address = 119 ∷ 115 ∷ []

abbrev host_name : Bytes
host_name = 104 ∷ []

abbrev host_of : Bytes → Option Bytes
host_of url = some host_name

-- A client that sends a token.
abbrev with_token : ClientConfig Bytes HeaderMap
with_token = record (new_config [] address) { headers = (HeaderName.authorization, 66 ∷ []) ∷ [] }

token-LeavesHandshake : LeavesHandshake with_token.headers
unfolding name_eq
token-LeavesHandshake = record {
  connection = (refl, tt);
  upgrade = (refl, tt);
  version = (refl, tt);
  key = (refl, tt);
}

abbrev sent_request : Request
sent_request = record {
  uri = address;
  request_method = get;
  request_headers = fixed_headers host_name (1 ∷ []) ++ (HeaderName.authorization, 66 ∷ []) ∷ [];
}

abbrev http_request : HttpRequest ℕ
http_request = record { head = record sent_request { uri = 47 ∷ [] }; version = 11 }

abbrev demo : ServerExt ℕ ℕ ℕ (ClientSocket (WebSocket ℕ)) ℕ (HttpRequest ℕ)
demo = record {
  on_connect = λ e socket request peer. (e + 1, ok e);
  on_disconnect = λ e id result. (e, ok tt);
  on_call = λ e a. (e + a, ok tt);
}

abbrev began : System ℕ ℕ ℕ (ClientSocket (WebSocket ℕ)) ℕ (HttpRequest ℕ)
began = start demo 0

abbrev takes_all : HttpRequest ℕ → Bool
takes_all r = true

-- Its signature of a key.
abbrev reversed : Bytes → Bytes
reversed key = 9 ∷ key

connect_http_request-on_upgrade_example :
    (left : Incoming ℕ ℕ ℕ) × (up : AxumUpgrade ℕ ℕ ℕ ℕ) × (upgrade_from_request_parts 0 takes_all
        (arrived sent_request (47 ∷ []) 11 80 5)
      ≡ some (left, ok up))
    × (let (response, task) = on_upgrade {E = ℕ} {I = ℕ} {A = ℕ} {K = ℕ} {H = ℕ} reversed up in
        (response.status_code ≡ 101)
        × ((more : List (HeaderName × Bytes)) × (response.response_headers
              ≡ (HeaderName.connection, upgrade_token)
                ∷ (HeaderName.upgrade, websocket_token)
                ∷ (HeaderName.sec_websocket_accept, 9 ∷ 1 ∷ [])
                ∷ more))
        × (up.address ≡ 80)
        × (up.request ≡ http_request)
        × ((k : ℕ)
            → ((task (ok k) began).connections ≡ delivered up k ∷ [])
              × Reach demo began (task (ok k) began))
        × ((h : ℕ) → task (err h) began ≡ began))
connect_http_request-on_upgrade_example =
    connect_http_request-on_upgrade ℕ demo reversed some host_of 0 takes_all (1 ∷ []) with_token
      sent_request (47 ∷ []) 11 80 5 began
      (unfold connect_http_request insert_all insert_header name_eq new_config in refl)
      token-LeavesHandshake refl refl
