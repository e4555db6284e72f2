-- ===== src/Axum.antt =====
-- src/server_runners/axum.rs, and the task that `on_upgrade` of src/server_runners/axum_tungstenite.rs
-- spawns. A header map is the list of its entries, in the order in which it iterates. The address `D`,
-- the HTTP version `V` and the connection `K` that hyper takes over are third-party types.
pub mod Rebuilding
pub mod Serving
mod Examples
use ezsockets.Base.{Bool, Option, Result, err, if◌then◌else◌, none, ok, some}
use ezsockets.Client.{ClientSocket}
use ezsockets.Request.{HttpRequest, get_header, pure_request}
use ezsockets.Runner.{server_accept}
use ezsockets.Server.Drain.{then}
use ezsockets.Server.System.{System}
use ezsockets.Socket.Heartbeat.{SocketConfig, default_config}
use ezsockets.Socket.Message.{Bytes}
use ezsockets.Upgrade.{
  Parts, Rejection, Response, WebSocketUpgrade, from_request_parts, invalid_connection_header,
  upgrade_response,
}

-- `http::request::Parts`, with what its extensions hold for the upgrade.
pub record Incoming (V D U : Type 0) : Type 0 where
  pub request : HttpRequest V
  pub connect_info : Option D
  pub on_upgrade : Option U

-- `axum::Upgrade`.
pub record AxumUpgrade (V D W U : Type 0) : Type 0 where
  pub ws : WebSocketUpgrade W U
  pub address : D
  pub request : HttpRequest V

-- `WebSocket`: the stream that `from_raw_socket` makes, and the protocol.
pub record WebSocket (K : Type 0) : Type 0 where
  pub inner : K
  pub protocol : Option Bytes

-- What `WebSocketUpgrade` reads of the parts.
abbrev pub upgrade_parts : {V D U : Type 0} → Incoming V D U → Parts U
upgrade_parts parts = record {
  method = parts.request.head.request_method;
  headers = get_header parts.request.head.request_headers;
  on_upgrade = parts.on_upgrade;
}

-- `body_ok` tells whether `body` succeeds: it fails if a builder method before it did.
module _ {V D U W : Type 0} (ws_config : W) (body_ok : HttpRequest V → Bool) where
  -- The rest of `from_request_parts`, `?` included, at the address.
  extract :
      D → HttpRequest V → Incoming V D U → Incoming V D U × Result (AxumUpgrade V D W U) Rejection
  extract address pure_req parts =
      let (left, r) = from_request_parts ws_config (upgrade_parts parts) in
      elim r [
        | ok ws ↦ (
          record parts { on_upgrade = left.on_upgrade },
          ok (record { ws = ws; address = address; request = pure_req }),
        )
        | err e ↦ (record parts { on_upgrade = left.on_upgrade }, err e)
      ]

  -- `Upgrade::from_request_parts`, with the parts that it leaves; `none` is the panic of `expect`.
  unfoldable pub upgrade_from_request_parts :
      Incoming V D U → Option (Incoming V D U × Result (AxumUpgrade V D W U) Rejection)
  unfolding extract pure_request
  upgrade_from_request_parts parts = elim parts.connect_info [
    | none ↦ none
    | some address ↦
        let pure_req = pure_request parts.request in
        if body_ok pure_req
        then some (extract address pure_req parts)
        else some (parts, err invalid_connection_header)
  ]

-- The task that `WebSocketUpgrade::on_upgrade` spawns, at what hyper's upgrade yields.
unfoldable pub upgrade_task :
    {W U K H X : Type 0}
    → (H → X → X)
    → (WebSocket K → X → X)
    → WebSocketUpgrade W U
    → Result K H
    → X
    → X
upgrade_task on_failed_upgrade callback ws (err e) x = on_failed_upgrade e x
upgrade_task on_failed_upgrade callback ws (ok upgraded) x =
    callback (record { inner = upgraded; protocol = ws.protocol }) x

-- `DefaultOnFailedUpdgrade`.
ignore_error : {H X : Type 0} → H → X → X
ignore_error e x = x

module _ {E I A V D W U K H : Type 0} (sign : Bytes → Bytes) where
  -- `Upgrade::on_upgrade_with_config`: its response, and the task that hands the connection to the
  -- server. The socket is what `Socket::new` gets.
  unfoldable pub on_upgrade_with_config :
      AxumUpgrade V D W U
      → SocketConfig
      → Response
        × (Result K H
            → System E I A (ClientSocket (WebSocket K)) D (HttpRequest V)
            → System E I A (ClientSocket (WebSocket K)) D (HttpRequest V))
  unfolding ignore_error
  on_upgrade_with_config up socket_config = (
    upgrade_response sign up.ws,
    upgrade_task ignore_error
        (λ socket. server_accept (record {
          socket = record { socket_impl = socket; config = socket_config };
          address = up.address;
          request = up.request;
        }))
        up.ws,
  )

  -- `Upgrade::on_upgrade`.
  unfoldable pub on_upgrade :
      AxumUpgrade V D W U
      → Response
        × (Result K H
            → System E I A (ClientSocket (WebSocket K)) D (HttpRequest V)
            → System E I A (ClientSocket (WebSocket K)) D (HttpRequest V))
  unfolding on_upgrade_with_config
  on_upgrade up = on_upgrade_with_config up default_config
