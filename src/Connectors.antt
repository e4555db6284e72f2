-- ===== src/Connectors.antt =====
-- The connectors of src/client_connectors/, with `connect_url` and `headers` of src/client.rs. What
-- `tokio-tungstenite` and `tokio_tungstenite_wasm` answer is an argument.
pub mod Panicking
use ezsockets.Base.{Option, Result, err, if◌then◌else◌, length, ltb, none, ok, some}
use ezsockets.Client.{ClientConfig}
use ezsockets.Error.{WsError}
use ezsockets.Request.{HeaderMap, Request, connect_http_request}
use ezsockets.Server.Drain.{then}
use ezsockets.Socket.Message.{Bytes}

-- `ClientConnectorTokio::connect`, at the key that `generate_key` makes; `none` is a panic of
-- `connect_http_request`. Of the pair that `connect_async` returns, the response is dropped.
module _ {U K P X : Type 0} (as_str : U → Option Bytes) (host_of : U → Option Bytes)
    (connect_async : Request → Result (K × P) X) where
  unfoldable pub tokio_connect : Bytes → ClientConfig U HeaderMap → Option (Result K X)
  tokio_connect key config = elim (connect_http_request as_str host_of key config) [
    | none ↦ none
    | some req ↦
        some (elim (connect_async req) [ ok (socket, response) ↦ ok socket | err e ↦ err e ])
  ]

-- `ClientConfig::headers` and `ClientConfig::connect_url`, where `url_text` is `Url::as_str`.
unfoldable pub config_headers : {U : Type 0} → ClientConfig U HeaderMap → HeaderMap
config_headers config = config.headers

unfoldable pub connect_url : {U : Type 0} → (U → Bytes) → ClientConfig U HeaderMap → Bytes
connect_url url_text config = url_text config.url

-- `wasm_client_connect`: `answer` is what comes through the channel from the spawned task, `none` if
-- the task is gone.
module _ {K : Type 0} (answer : Bytes → Option (Result K WsError)) where
  unfoldable pub wasm_client_connect : Bytes → Result K WsError
  wasm_client_connect request_url = elim (answer request_url) [
    | none ↦ err WsError.connection_closed
    | some result ↦ result
  ]

  -- `ClientConnectorWasm::connect`; `none` is its panic.
  unfoldable pub wasm_connect :
      {U : Type 0} → (U → Bytes) → ClientConfig U HeaderMap → Option (Result K WsError)
  unfolding config_headers connect_url wasm_client_connect
  wasm_connect url_text config =
      if ltb 0 (length (config_headers config))
      then none
      else some (wasm_client_connect (connect_url url_text config))
