-- ===== src/Client.antt =====
-- src/client.rs: the configuration, the extension and the socket of a client.
pub mod Connect
pub mod Actor
pub mod System
mod Examples
use ezsockets.Base.{Option, Result, err, none, ok, some, ℕ, ◌-◌, ◌^◌}
use ezsockets.Error.{Error, WsError}
use ezsockets.Socket.Heartbeat.{SocketConfig}
use ezsockets.Socket.Message.{Bytes, CloseFrame, Utf8Bytes}

-- The URL and the header map are third-party types, `U` and `H`.
pub record ClientConfig (U H : Type 0) : Type 0 where
  pub url : U
  pub max_initial_connect_attempts : ℕ  -- usize
  pub max_reconnect_attempts : ℕ  -- usize
  pub reconnect_interval : ℕ  -- a Duration, in nanoseconds
  pub headers : H
  pub socket_config : Option SocketConfig

-- `usize::MAX`.
abbrev pub usize_max : ℕ
usize_max = 2 ^ 64 - 1

abbrev pub default_reconnect_interval : ℕ
default_reconnect_interval = 5000000000

-- `ClientConfig::new`, at a valid URL and the empty header map.
unfoldable pub new_config : {U H : Type 0} → H → U → ClientConfig U H
new_config no_headers url = record {
  url = url;
  max_initial_connect_attempts = usize_max;
  max_reconnect_attempts = usize_max;
  reconnect_interval = default_reconnect_interval;
  headers = no_headers;
  socket_config = none;
}

pub data ClientCloseMode : Type 0 where
  reconnect close : ClientCloseMode

-- `ClientExt`, over the extension's state `E` and the calls `A`: a handler returns the new extension
-- and its result.
pub record ClientExt (E A : Type 0) : Type 0 where
  pub on_text : E → Utf8Bytes → E × Result (Unit {0}) Error
  pub on_binary : E → Bytes → E × Result (Unit {0}) Error
  pub on_call : E → A → E × Result (Unit {0}) Error
  pub on_connect : E → E × Result (Unit {0}) Error
  pub on_connect_fail : E → WsError → E × Result ClientCloseMode Error
  pub on_close : E → Option CloseFrame → E × Result ClientCloseMode Error
  pub on_disconnect : E → E × Result ClientCloseMode Error

-- The handlers that the trait `ClientExt` provides.
module _ {E : Type 0} where
  abbrev pub default_on_connect : E → E × Result (Unit {0}) Error
  default_on_connect e = (e, ok tt)

  abbrev pub default_on_connect_fail : E → WsError → E × Result ClientCloseMode Error
  default_on_connect_fail e x = (e, ok reconnect)

  abbrev pub default_on_close : E → Option CloseFrame → E × Result ClientCloseMode Error
  default_on_close e frame = (e, ok reconnect)

  abbrev pub default_on_disconnect : E → E × Result ClientCloseMode Error
  default_on_disconnect e = (e, ok reconnect)

-- The future of `connect`, at what `extract` yields: nothing if the task has panicked.
unfoldable pub connect_future : Option (Result (Unit {0}) Error) → Result (Unit {0}) Error
connect_future none = err (Error.text "client actor crashed")
connect_future (some result) = result

-- `Socket::new` on what the connector opened, of type `K`.
pub record ClientSocket (K : Type 0) : Type 0 where
  pub socket_impl : K
  pub config : SocketConfig
