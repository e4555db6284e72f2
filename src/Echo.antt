-- ===== src/Echo.antt =====
-- examples/echo-server/src/main.rs and examples/echo-server-graceful-shutdown/src/main.rs: servers whose
-- sessions send back what they hear. What a session's handle posts is kept in a log, oldest first; a
-- handler that panics gives `none`, and `takes` tells whether the session's channel is there.
pub mod Echoing
pub mod Trip
mod Examples
use ezsockets.Base.{Bool, List, Option, Result, [], err, false, none, ok, some, true, ℕ, ◌++◌, ◌∷◌}
use ezsockets.Chat.{on_call, on_connect, on_disconnect}
use ezsockets.Error.{Error}
use ezsockets.Server.{ServerExt}
use ezsockets.Session.{SessionExt}
use ezsockets.Session.Handlers.{request}
use ezsockets.Socket.Message.{Utf8Bytes}

-- `EchoServer`: it has no state, accepts every connection under the port of its address, and ignores
-- the rest.
abbrev pub echo_server_ext : {A S D R : Type 0} → (D → ℕ) → ServerExt (Unit {0}) ℕ A S D R
echo_server_ext port = record {
  on_connect = λ e socket request address. (e, ok (port address));
  on_disconnect = λ e id reason. (e, ok tt);
  on_call = λ e call. (e, ok tt);
}

-- `EchoSession` of echo-server: `self.handle.text(text).unwrap()`.
unfoldable pub echo_on_text :
    Bool → Utf8Bytes → Option (List Utf8Bytes) → Option (List Utf8Bytes) × Result (Unit {0}) Error
echo_on_text takes t none = (none, ok tt)
echo_on_text true t (some posted) = (some (posted ++ t ∷ []), ok tt)
echo_on_text false t (some posted) = (none, ok tt)

-- Its `on_binary` is `unimplemented!()`.
abbrev pub echo_ext : Bool → SessionExt (Option (List Utf8Bytes)) (Unit {0})
echo_ext takes = record {
  on_text = λ posted t. echo_on_text takes t posted;
  on_binary = λ posted bytes. (none, ok tt);
  on_call = λ posted call. (posted, ok tt);
}

-- `EchoSession` of echo-server-graceful-shutdown: `self.handle.text(text)?`, where `SendError` is a
-- failure of the handler.
unfoldable pub graceful_on_text :
    Bool → Utf8Bytes → List Utf8Bytes → List Utf8Bytes × Result (Unit {0}) Error
graceful_on_text true t posted = (posted ++ t ∷ [], ok tt)
graceful_on_text false t posted = (posted, err (Error.handler 0))

abbrev pub graceful_ext : Bool → SessionExt (List Utf8Bytes) (Unit {0})
graceful_ext takes = record {
  on_text = λ posted t. graceful_on_text takes t posted;
  on_binary = λ posted bytes. (posted, ok tt);
  on_call = λ posted call. (posted, ok tt);
}
