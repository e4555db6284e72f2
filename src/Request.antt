-- ===== src/Request.antt =====
-- The builder methods of `ClientConfig` in src/client.rs and the HTTP request that they build, and how
-- the server runners (src/server_runners/) rebuild the request that comes. A header map is the list of
-- its entries in the order in which it iterates: one per name in a config, which only inserts into it.
-- The URL, the base64 encoding and the checks of a `HeaderValue` are third-party code.
pub mod Handshake
pub mod Headers
pub mod Rebuilding
mod Examples
use ezsockets.Base.{
  Bool, List, Option, [], false, if◌then◌else◌, none, some, true, ℕ, ◌++◌, ◌==◌, ◌∷◌,
}
use ezsockets.Client.{ClientConfig}
use ezsockets.Server.Drain.{then}
use ezsockets.Socket.Heartbeat.{SocketConfig}
use ezsockets.Socket.Message.{Bytes}
use ezsockets.Upgrade.{HeaderName, Method, get, other_header, version_token, websocket_token}

abbrev pub HeaderMap : Type 0
HeaderMap = List (HeaderName × Bytes)

unfoldable pub name_eq : HeaderName → HeaderName → Bool
name_eq HeaderName.connection HeaderName.connection = true
name_eq HeaderName.upgrade HeaderName.upgrade = true
name_eq HeaderName.sec_websocket_version HeaderName.sec_websocket_version = true
name_eq HeaderName.sec_websocket_key HeaderName.sec_websocket_key = true
name_eq HeaderName.sec_websocket_protocol HeaderName.sec_websocket_protocol = true
name_eq HeaderName.sec_websocket_accept HeaderName.sec_websocket_accept = true
name_eq HeaderName.authorization HeaderName.authorization = true
name_eq HeaderName.host HeaderName.host = true
name_eq (other_header m) (other_header n) = m == n
name_eq _ _ = false

-- `HeaderMap::get` and `HeaderMap::insert`, which replaces.
unfoldable pub get_header : HeaderMap → HeaderName → Option Bytes
unfolding name_eq
get_header [] name = none
get_header ((n, value) ∷ rest) name =
    let later = get_header rest name in if name_eq n name then some value else later

unfoldable pub insert_header : HeaderName → Bytes → HeaderMap → HeaderMap
unfolding name_eq
insert_header name value [] = (name, value) ∷ []
insert_header name value ((n, v) ∷ rest) =
    let later = insert_header name value rest in
    if name_eq n name then (name, value) ∷ rest else (n, v) ∷ later

-- "Basic ", "Bearer ", ":" and "Upgrade".
abbrev basic_prefix : Bytes
basic_prefix = 66 ∷ 97 ∷ 115 ∷ 105 ∷ 99 ∷ 32 ∷ []

abbrev bearer_prefix : Bytes
bearer_prefix = 66 ∷ 101 ∷ 97 ∷ 114 ∷ 101 ∷ 114 ∷ 32 ∷ []

abbrev colon : Bytes
colon = 58 ∷ []

abbrev upgrade_value : Bytes
upgrade_value = 85 ∷ 112 ∷ 103 ∷ 114 ∷ 97 ∷ 100 ∷ 101 ∷ []

module _ {U : Type 0} where
  -- Insert a header, or panic.
  insert_value :
      HeaderName → Option Bytes → ClientConfig U HeaderMap → Option (ClientConfig U HeaderMap)
  unfolding insert_header
  insert_value name none config = none
  insert_value name (some value) config =
      some (record config { headers = insert_header name value config.headers })

  -- The builder methods, with `none` for a panic.
  unfoldable pub basic :
      (encode : Bytes → Bytes) (from_str : Bytes → Option Bytes)
      → Bytes
      → Bytes
      → ClientConfig U HeaderMap
      → Option (ClientConfig U HeaderMap)
  unfolding insert_value
  basic encode from_str username password config =
      let credentials = encode (username ++ colon ++ password) in
      insert_value HeaderName.authorization (from_str (basic_prefix ++ credentials)) config

  unfoldable pub bearer :
      (from_str : Bytes → Option Bytes)
      → Bytes
      → ClientConfig U HeaderMap
      → Option (ClientConfig U HeaderMap)
  unfolding insert_value
  bearer from_str token config =
      insert_value HeaderName.authorization (from_str (bearer_prefix ++ token)) config

  -- At the results of the two `try_from`.
  unfoldable pub header :
      Option HeaderName
      → Option Bytes
      → ClientConfig U HeaderMap
      → Option (ClientConfig U HeaderMap)
  unfolding insert_value
  header none value config = none
  header (some name) value config = insert_value name value config

  unfoldable pub query_parameter :
      (append_pair : Bytes → Bytes → U → U)
      → Bytes
      → Bytes
      → ClientConfig U HeaderMap
      → ClientConfig U HeaderMap
  query_parameter append_pair key value config = record config {
    url = append_pair key value config.url;
  }

  unfoldable pub set_max_initial_connect_attempts :
      ℕ → ClientConfig U HeaderMap → ClientConfig U HeaderMap
  set_max_initial_connect_attempts n config = record config { max_initial_connect_attempts = n }

  unfoldable pub set_max_reconnect_attempts :
      ℕ → ClientConfig U HeaderMap → ClientConfig U HeaderMap
  set_max_reconnect_attempts n config = record config { max_reconnect_attempts = n }

  unfoldable pub set_reconnect_interval : ℕ → ClientConfig U HeaderMap → ClientConfig U HeaderMap
  set_reconnect_interval d config = record config { reconnect_interval = d }

  unfoldable pub set_socket_config :
      SocketConfig → ClientConfig U HeaderMap → ClientConfig U HeaderMap
  set_socket_config c config = record config { socket_config = some c }

-- A request, of which the URI is the URL's text.
pub record Request : Type 0 where
  pub uri : Bytes
  pub request_method : Method
  pub request_headers : HeaderMap

-- `for (key, value) in self.headers.clone()`, each into the request.
unfoldable pub insert_all : HeaderMap → HeaderMap → HeaderMap
unfolding insert_header
insert_all [] headers = headers
insert_all ((name, value) ∷ rest) headers = insert_all rest (insert_header name value headers)

-- The headers that every request has.
abbrev pub fixed_headers : Bytes → Bytes → HeaderMap
fixed_headers host_name key =
    (HeaderName.host, host_name)
    ∷ (HeaderName.connection, upgrade_value)
    ∷ (HeaderName.upgrade, websocket_token)
    ∷ (HeaderName.sec_websocket_version, version_token)
    ∷ (HeaderName.sec_websocket_key, key)
    ∷ []

-- `Url::as_str` where it is a URI, and `Url::host` where it is there and a header value.
module _ {U : Type 0} (as_str : U → Option Bytes) (host_of : U → Option Bytes) where
  build : Option Bytes → Option Bytes → Bytes → HeaderMap → Option Request
  unfolding insert_all
  build (some address) (some host_name) key headers = some (record {
    uri = address;
    request_method = get;
    request_headers = insert_all headers (fixed_headers host_name key);
  })
  build _ _ key headers = none

  -- `connect_http_request`, at the key that `generate_key` made; `none` is a panic.
  unfoldable pub connect_http_request : Bytes → ClientConfig U HeaderMap → Option Request
  unfolding build
  connect_http_request key config =
      build (as_str config.url) (host_of config.url) key config.headers

-- `http::Request<()>`, with its version.
pub record HttpRequest (V : Type 0) : Type 0 where
  pub head : Request
  pub version : V

-- `for (k, v) in req.headers() { req1 = req1.header(k, v) }`, of both server runners.
append_headers : HeaderMap → HeaderMap → HeaderMap
append_headers [] headers = headers
append_headers ((k, v) ∷ rest) headers = append_headers rest (headers ++ (k, v) ∷ [])

-- The request that they rebuild with a builder, before `body`.
unfoldable pub pure_request : {V : Type 0} → HttpRequest V → HttpRequest V
unfolding append_headers
pure_request r = record {
  head = record {
    uri = r.head.uri;
    request_method = r.head.request_method;
    request_headers = append_headers r.head.request_headers [];
  };
  version = r.version;
}
