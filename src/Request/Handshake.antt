-- ===== src/Request/Handshake.antt =====
-- The client's request and the server's upgrade fit together.
use ezsockets.Base.{Option, [], arith, false, refl, some, true, ◌∙◌, ◌∷◌, ◌≡◌}
use ezsockets.Client.{ClientConfig}
use ezsockets.Request.{
  upgrade_value, HeaderMap, Request, connect_http_request, fixed_headers, get_header, insert_all,
  insert_header, name_eq,
}
use ezsockets.Socket.Message.{Bytes}
use ezsockets.Text.{is_utf8, to_ascii_lowercase, to_lower}
use ezsockets.Upgrade.{HeaderName, Parts, get, version_token, websocket_token}
use ezsockets.Upgrade.Guards.{IsHandshake, Upgrades, from_request_parts_iff}

-- No header of the list has the name.
abbrev pub Lacks : HeaderName → HeaderMap → Type 0
Lacks name [] = Unit {0}
Lacks name ((n, value) ∷ rest) = (name_eq n name ≡ false) × Lacks name rest

-- The user set none of the headers of the handshake.
pub record LeavesHandshake (headers : HeaderMap) : Type 0 where
  pub connection : Lacks HeaderName.connection headers
  pub upgrade : Lacks HeaderName.upgrade headers
  pub version : Lacks HeaderName.sec_websocket_version headers
  pub key : Lacks HeaderName.sec_websocket_key headers

pub name_eq_sound : (m n : HeaderName) → name_eq m n ≡ true → m ≡ n
unfolding name_eq
name_eq_sound m n h = ground arith

pub get-insert_other :
    (name n : HeaderName) (value : Bytes) (headers : HeaderMap)
    → name_eq n name ≡ false
    → get_header (insert_header n value headers) name ≡ get_header headers name
unfolding get_header insert_header
get-insert_other name n value [] h = ground arith
get-insert_other name n value ((m, v) ∷ rest) h =
    ground (arith, get-insert_other name n value rest h, name_eq_sound m n)

pub get-insert_all :
    (name : HeaderName) (headers fixed : HeaderMap)
    → Lacks name headers
    → get_header (insert_all headers fixed) name ≡ get_header fixed name
unfolding insert_all
get-insert_all name [] fixed h = refl
get-insert_all name ((n, value) ∷ rest) fixed h =
    get-insert_all name rest (insert_header n value fixed) h.1
    ∙ get-insert_other name n value fixed h.0

-- The request as it arrives at a server that can take its connection over.
abbrev pub received : {V : Type 0} → Request → V → Parts V
received req v = record {
  method = req.request_method;
  headers = get_header req.request_headers;
  on_upgrade = some v;
}

module _ {V : Type 0} where
  fixed-IsHandshake :
      (headers : HeaderMap) (address host_name key : Bytes) (v : V)
      → LeavesHandshake headers
      → let req : Request = record {
        uri = address;
        request_method = get;
        request_headers = insert_all headers (fixed_headers host_name key);
      } in
        IsHandshake (received req v) key v
  unfolding is_utf8 to_ascii_lowercase get_header
  fixed-IsHandshake headers address host_name key v l =
      let fixed = fixed_headers host_name key in
      record {
        is_get = refl;
        asks_upgrade = (
          upgrade_value,
          [],
          [],
          get-insert_all HeaderName.connection headers fixed l.connection,
          refl,
          unfold to_lower in refl,
        );
        to_websocket =
            (websocket_token, get-insert_all HeaderName.upgrade headers fixed l.upgrade, refl);
        of_version_13 = (
          version_token,
          get-insert_all HeaderName.sec_websocket_version headers fixed l.version,
          refl,
        );
        has_key = get-insert_all HeaderName.sec_websocket_key headers fixed l.key;
        upgradable = refl;
      }

module _ {U V W : Type 0} (as_str : U → Option Bytes) (host_of : U → Option Bytes)
    (default_config : W) where
  -- Client and server agree on the handshake: when the URL is a URI with a host and the user's headers
  -- leave those of the handshake alone, `connect_http_request` does not panic, and the server upgrades
  -- the request, with the key that the client made and the connection on which it came.
  pub connect_http_request-Upgrades :
      (config : ClientConfig U HeaderMap) (address host_name key : Bytes) (v : V)
      → as_str config.url ≡ some address
      → host_of config.url ≡ some host_name
      → LeavesHandshake config.headers
      → (req : Request) × (connect_http_request as_str host_of key config ≡ some req)
        × Upgrades default_config (received req v) key v
  unfolding connect_http_request
  connect_http_request-Upgrades config address host_name key v a h l =
      let req : Request = record {
        uri = address;
        request_method = get;
        request_headers = insert_all config.headers (fixed_headers host_name key);
      } in
      (
        req,
        ground (arith, a, h),
        (from_request_parts_iff default_config (received req v) key v).1
            (fixed-IsHandshake config.headers address host_name key v l),
      )
