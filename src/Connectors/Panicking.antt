-- ===== src/Connectors/Panicking.antt =====
-- When the connectors panic.
use ezsockets.Base.{
  List, Option, Result, [], arith, false, length, ltb, none, refl, some, ◌↔◌, ◌∷◌, ◌≡◌, ◌≢◌, ◌⊎◌,
}
use ezsockets.Client.{ClientConfig}
use ezsockets.Connectors.{tokio_connect, wasm_client_connect, wasm_connect}
use ezsockets.Error.{WsError}
use ezsockets.Request.{HeaderMap, Request, connect_http_request, insert_header}
use ezsockets.Socket.Message.{Bytes}
use ezsockets.Upgrade.{HeaderName}

pub is_empty_iff : {X : Type 0} (xs : List X) → (ltb 0 (length xs) ≡ false) ↔ (xs ≡ [])
is_empty_iff [] = (λ e. refl, λ e. refl)
is_empty_iff (x ∷ xs) = ground arith

module _ {U K P X : Type 0} (as_str : U → Option Bytes) (host_of : U → Option Bytes)
    (connect_async : Request → Result (K × P) X) where
  -- Over tokio, a config panics exactly if its URL is no URI or has no host that fits a header.
  pub tokio_connect_iff :
      (key : Bytes) (config : ClientConfig U HeaderMap)
      → (tokio_connect as_str host_of connect_async key config ≡ none)
        ↔ ((as_str config.url ≡ none) ⊎ (host_of config.url ≡ none))
  unfolding tokio_connect connect_http_request
  tokio_connect_iff key config = ground arith

module _ {K : Type 0} (answer : Bytes → Option (Result K WsError)) {U : Type 0}
    (url_text : U → Bytes) where
  wasm_connect_empty :
      (config : ClientConfig U HeaderMap)
      → config.headers ≡ []
      → wasm_connect answer url_text config
        ≡ some (wasm_client_connect answer (url_text config.url))
  unfolding wasm_connect
  wasm_connect_empty config e = ground (arith, e, is_empty_iff config.headers)

  -- In a browser a config panics exactly if it has a header; else the address is asked for as it is.
  pub wasm_connect_iff :
      (config : ClientConfig U HeaderMap)
      → (wasm_connect answer url_text config ≡ none) ↔ (config.headers ≢ [])
  unfolding wasm_connect
  wasm_connect_iff config = ground (arith, is_empty_iff config.headers)

  -- So every config that is built with `header`, `basic` or `bearer` panics there.
  insert_header-nonempty :
      (name : HeaderName) (value : Bytes) (hs : HeaderMap) → insert_header name value hs ≢ []
  unfolding insert_header
  insert_header-nonempty name value [] = ground arith
  insert_header-nonempty name value ((n, v) ∷ hs) = ground arith
