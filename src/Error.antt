-- ===== src/Error.antt =====
-- The error types of src/lib.rs. `WSError` is the third-party `tokio_tungstenite_wasm::Error`: the
-- constructors are the variants that the source names, and `other` stands for all that it does not
-- tell apart. `Error` is a boxed error: one constructor for each way in which the source makes one.
use ezsockets.Base.{String, ℕ}

pub data WsError : Type 0 where
  send_after_closing connection_closed already_closed : WsError
  -- The payloads of `Io(_)` and `Tls(_)` are never read.
  io tls : WsError
  other : ℕ → WsError

pub data Error : Type 0 where
  -- `Error::from("…")`.
  text : String → Error
  -- `format!("failed to connect after {} attempt(s), aborting...", i)`.
  failed_to_connect : ℕ → Error
  -- `Error::from(error)` at a `WSError`.
  socket : WsError → Error
  -- What a handler of the user's returns.
  handler : ℕ → Error
