-- ===== src/Axum/Serving.antt =====
-- From the client's request (src/client.rs) through src/server_runners/axum.rs to the server's queue.
use ezsockets.Axum.{
  AxumUpgrade, Incoming, WebSocket, on_upgrade, upgrade_from_request_parts, upgrade_task,
}
use ezsockets.Axum.Rebuilding.{upgrade_from_request_parts-ok}
use ezsockets.Base.{
  Bool, List, Option, Option-cases, [], arith, err, false, inl, inr, ok, refl, some, subst, true,
  ◌++◌, ◌∷◌, ◌≡◌,
}
use ezsockets.Client.{ClientConfig, ClientSocket}
use ezsockets.Request.{HeaderMap, HttpRequest, Request, connect_http_request}
use ezsockets.Request.Handshake.{LeavesHandshake, connect_http_request-Upgrades, received}
use ezsockets.Runner.{server_accept}
use ezsockets.Server.{NewConnection, ServerExt}
use ezsockets.Server.System.{Reach, System, accept, here, next}
use ezsockets.Socket.Heartbeat.{default_config}
use ezsockets.Socket.Message.{Bytes}
use ezsockets.Upgrade.{
  HeaderName, WebSocketUpgrade, upgrade_response, upgrade_token, websocket_token,
}
use ezsockets.Upgrade.Guards.{Upgrades}

-- The request that arrives for one that the client built, over a connection that can be taken over. The
-- client's websocket library writes its method and its headers, and of its URI what `target` is: the
-- path and the query.
abbrev pub arrived : {V D U : Type 0} → Request → Bytes → V → D → U → Incoming V D U
arrived req target version peer upgrading = record {
  request = record { head = record req { uri = target }; version = version };
  connect_info = some peer;
  on_upgrade = some upgrading;
}

module _ {U : Type 0} (as_str : U → Option Bytes) (host_of : U → Option Bytes) where
  built_inv :
      (key : Bytes) (config : ClientConfig U HeaderMap) (req : Request)
      → connect_http_request as_str host_of key config ≡ some req
      → (address : Bytes) × (host_name : Bytes) × (as_str config.url ≡ some address)
        × (host_of config.url ≡ some host_name)
  unfolding connect_http_request
  built_inv key config req h = elim (Option-cases (as_str config.url)) [
    | inl e ↦ absurd (ground arith)
    | inr (address, e) ↦ elim (Option-cases (host_of config.url)) [
      | inl f ↦ absurd (ground arith)
      | inr (host_name, f) ↦ (address, host_name, e, f)
    ]
  ]

  built-Upgrades :
      {V W : Type 0} (ws_config : W) (key : Bytes) (config : ClientConfig U HeaderMap)
      (req : Request) (v : V)
      → connect_http_request as_str host_of key config ≡ some req
      → LeavesHandshake config.headers
      → Upgrades ws_config (received req v) key v
  built-Upgrades ws_config key config req v h l =
      let (address, host_name, a, f) = built_inv key config req h in
      let (req', built, up) =
        connect_http_request-Upgrades as_str host_of ws_config config address host_name key v a f
          l in
      let same : req' ≡ req = ground (arith, h, built) in
      subst (λ r. Upgrades ws_config (received r v) key v) same up

-- What the server's queue gets of an upgrade.
abbrev pub delivered :
    {V D W U K : Type 0}
    → AxumUpgrade V D W U
    → K
    → NewConnection (ClientSocket (WebSocket K)) D (HttpRequest V)
delivered up k = record {
  socket = record {
    socket_impl = record { inner = k; protocol = up.ws.protocol };
    config = default_config;
  };
  address = up.address;
  request = up.request;
}

signed_accept :
    {W U : Type 0} (sign : Bytes → Bytes) (ws : WebSocketUpgrade W U) (key : Bytes)
    → ws.sec_websocket_key ≡ key
    → (more : List (HeaderName × Bytes)) × ((upgrade_response sign ws).response_headers
        ≡ (HeaderName.connection, upgrade_token)
          ∷ (HeaderName.upgrade, websocket_token)
          ∷ (HeaderName.sec_websocket_accept, sign key)
          ∷ more)
unfolding upgrade_response
signed_accept sign ws key k =
    subst
      (λ x.
        (more : List (HeaderName × Bytes)) × ((upgrade_response sign ws).response_headers
          ≡ (HeaderName.connection, upgrade_token)
            ∷ (HeaderName.upgrade, websocket_token)
            ∷ (HeaderName.sec_websocket_accept, sign x)
            ∷ more))
      k (_, refl)

module _ {E I A V D U W K : Type 0} (H : Type 0)
    (ext : ServerExt E I A (ClientSocket (WebSocket K)) D (HttpRequest V))
    (sign : Bytes → Bytes) where
  task_delivers :
      (up : AxumUpgrade V D W U) (k : K)
      (s : System E I A (ClientSocket (WebSocket K)) D (HttpRequest V))
      → s.exited ≡ false
      → let s' = (on_upgrade {K = K} {H = H} sign up).1 (ok k) s in
        (s'.connections ≡ s.connections ++ delivered up k ∷ []) × Reach ext s s'
  unfolding on_upgrade upgrade_task server_accept
  task_delivers up k s x = (ground arith, next here (accept (delivered up k) x (rw x)))

  -- A client's request reaches the queue of the server with the headers that it was built with. Take any
  -- request that `connect_http_request` builds from a config that leaves the headers of the handshake
  -- alone. Let it arrive with its method and its headers, and whatever target its URI is written as, at
  -- a server with `ConnectInfo`, over a connection that can be taken over, so that the builder takes
  -- it. Then the
  -- extractor does not panic and upgrades it; the response has status 101 and signs the client's own
  -- key. If hyper hands the connection over while the server's actor is there, then the queue of the
  -- server gets exactly that connection, last, with the peer's address and with the request as it
  -- arrived, by a step of the system; if hyper fails, nothing changes.
  pub connect_http_request-on_upgrade :
      {Url : Type 0} (as_str : Url → Option Bytes) (host_of : Url → Option Bytes) (ws_config : W)
      (body_ok : HttpRequest V → Bool) (key : Bytes) (config : ClientConfig Url HeaderMap)
      (req : Request) (target : Bytes) (version : V) (peer : D) (upgrading : U)
      (s : System E I A (ClientSocket (WebSocket K)) D (HttpRequest V))
      → connect_http_request as_str host_of key config ≡ some req
      → LeavesHandshake config.headers
      → body_ok (record { head = record req { uri = target }; version = version }) ≡ true
      → s.exited ≡ false
      → let parts = arrived req target version peer upgrading in
        (left : Incoming V D U) × (up : AxumUpgrade V D W U) × (upgrade_from_request_parts ws_config
            body_ok parts
          ≡ some (left, ok up))
        × (let (response, task) = on_upgrade {K = K} {H = H} sign up in
            (response.status_code ≡ 101)
            × ((more : List (HeaderName × Bytes)) × (response.response_headers
                  ≡ (HeaderName.connection, upgrade_token)
                    ∷ (HeaderName.upgrade, websocket_token)
                    ∷ (HeaderName.sec_websocket_accept, sign key)
                    ∷ more))
            × (up.address ≡ peer)
            × (up.request ≡ record { head = record req { uri = target }; version = version })
            × ((k : K)
                → ((task (ok k) s).connections ≡ s.connections ++ delivered up k ∷ [])
                  × Reach ext s (task (ok k) s))
            × ((h : H) → task (err h) s ≡ s))
  unfolding on_upgrade upgrade_task upgrade_response
  connect_http_request-on_upgrade as_str host_of ws_config body_ok key config req target version
        peer upgrading s h l b x =
      let parts = arrived req target version peer upgrading in
      let (ws, r, k, p) = built-Upgrades as_str host_of ws_config key config req upgrading h l in
      let (left, q) = upgrade_from_request_parts-ok ws_config body_ok parts peer ws refl b r in
      let up : AxumUpgrade V D W U = record { ws = ws; address = peer; request = parts.request } in
      (
        left,
        up,
        q,
        (refl, signed_accept sign ws key k, refl, refl, λ c. task_delivers up c s x, λ e. refl),
      )
