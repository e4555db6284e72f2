-- ===== src/Client/Actor/Closing.antt =====
-- How a client's actor ends (src/client.rs).
use ezsockets.Base.{
  Among, Bool, List, Option, Result, arith, err, false, is_err, ok, true, ℕ, ◌∷◌, ◌≡◌, ◌≢◌, ◌≤◌,
}
use ezsockets.Client.{ClientConfig, ClientExt, ClientSocket}
use ezsockets.Client.Actor.{ClientEvent, client_run, client_step, outgoing, returned}
use ezsockets.Client.Connect.{ClientState, is_close}
use ezsockets.Error.{Error, WsError}
use ezsockets.Socket.Message.{Bytes, CloseFrame, Message, Utf8Bytes}
use ezsockets.Socket.Signal.{InMessage}

module _ {E A K U H : Type 0} (ext : ClientExt E A) (config : ClientConfig U H) where
  -- A close message of the user ends the client with success, whether or not the socket takes it and
  -- whatever the sink reports: no handler is called, nothing reconnects, and later events are not
  -- looked at.
  pub close_wins :
      (m : InMessage) (send_fails : Bool) (result : Result (Unit {0}) WsError)
      (es : List (ClientEvent A)) (socket : ClientSocket K) (st : ClientState E K)
      → is_close m.message ≡ true
      → let (st', p) = client_run ext config (outgoing m send_fails result ∷ es) socket st in
        (p ≡ returned (ok tt))
        × (st'.extension ≡ st.extension)
        × (st'.connects ≡ st.connects)
        × (st'.slept ≡ st.slept)
  unfolding client_run client_step
  close_wins m send_fails (ok r) es socket st h = ground arith
  close_wins m send_fails (err e) es socket st h = ground arith

-- The extension never fails.
pub record NeverFails {E A : Type 0} (ext : ClientExt E A) : Type 0 where
  pub text : (x : E) (s : Utf8Bytes) → is_err (ext.on_text x s).1 ≡ false
  pub binary : (x : E) (bytes : Bytes) → is_err (ext.on_binary x bytes).1 ≡ false
  pub call : (x : E) (a : A) → is_err (ext.on_call x a).1 ≡ false
  pub connect : (x : E) → is_err (ext.on_connect x).1 ≡ false
  pub connect_fail : (x : E) (e : WsError) → is_err (ext.on_connect_fail x e).1 ≡ false
  pub close : (x : E) (f : Option CloseFrame) → is_err (ext.on_close x f).1 ≡ false
  pub disconnect : (x : E) → is_err (ext.on_disconnect x).1 ≡ false

-- The connection was not closed, and neither the network nor its encryption failed.
pub record IsUnexplained (w : WsError) : Type 0 where
  pub not_closing : w ≢ WsError.send_after_closing
  pub not_closed : w ≢ WsError.connection_closed
  pub not_already : w ≢ WsError.already_closed
  pub not_network : w ≢ WsError.io
  pub not_tls : w ≢ WsError.tls

-- The errors that the client makes up itself: its handles are gone while it connects, it gave up
-- after at least the attempts that it is allowed, or the socket did not take a message of its user and
-- the sink had failed in a way that no lost connection explains.
pub data Fatal {A : Type 0} (max_attempts : ℕ) (es : List (ClientEvent A)) (e : Error)
    : Type 0 where
  died_connecting : e ≡ Error.text "client died while trying to connect" → Fatal max_attempts es e
  gave_up : (n : ℕ) → max_attempts ≤ n → e ≡ Error.failed_to_connect n → Fatal max_attempts es e
  bad_sink :
      (m : InMessage) (w : WsError)
      → Among (outgoing m true (err w)) es
      → IsUnexplained w
      → is_close m.message ≡ false
      → e ≡ Error.text "unexpected sink error, aborting client actor"
      → Fatal max_attempts es e
