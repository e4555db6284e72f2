-- ===== src/Runner.antt =====
-- src/server_runners/tungstenite.rs: the acceptor, and the loop that accepts connections for a server.
-- The listener, TLS and the websocket handshake are third-party code: what they answer is an event.
pub mod Accepting
mod Examples
use ezsockets.Base.{Bool, List, Option, Result, [], err, if◌then◌else◌, none, ok, some, ◌++◌, ◌∷◌}
use ezsockets.Client.{ClientSocket}
use ezsockets.Error.{Error}
use ezsockets.Request.{HttpRequest, pure_request}
use ezsockets.Server.{NewConnection}
use ezsockets.Server.Drain.{then}
use ezsockets.Server.System.{System}
use ezsockets.Session.Handlers.{request}
use ezsockets.Socket.Heartbeat.{default_config}

-- `Acceptor`.
pub data Acceptor : Type 0 where
  plain native_tls rustls : Acceptor

-- What becomes of a stream: the result of its TLS handshake, the request and the response `P` with which
-- the websocket handshake calls its callback, if it comes so far, and what it makes of the callback's
-- answer: a connection `K`.
pub record Handshake (V P Q K : Type 0) : Type 0 where
  pub tls : Result (Unit {0}) Error
  pub offered : Option (HttpRequest V × P)
  pub websocket : Option (Result P Q) → Result K Error

-- One `listener.accept()`.
pub data AcceptEvent (V P Q K D : Type 0) : Type 0 where
  tcp_failed : AcceptEvent V P Q K D
  tcp_accepted : D → Handshake V P Q K → AcceptEvent V P Q K D
  -- One whose handshakes have not ended, for which the loop waits.
  stalled : D → AcceptEvent V P Q K D

-- `acceptor.accept(stream).await?`, where there is TLS.
tls_accept : {V P Q K : Type 0} → Acceptor → Handshake V P Q K → Result (Unit {0}) Error
tls_accept plain h = ok tt
tls_accept native_tls h = h.tls
tls_accept rustls h = h.tls

-- `Socket::new(…)` and the test of `req0`.
with_request :
    {V K : Type 0}
    → Option (HttpRequest V)
    → Result K Error
    → Result (ClientSocket K × HttpRequest V) Error
with_request req0 (err e) = err e
with_request none (ok k) = err (Error.text "invalid request body")
with_request (some req_body) (ok k) =
    ok (record { socket_impl = k; config = default_config }, req_body)

-- `body_ok` tells whether the builder's `body` succeeds; `refusal` is `ErrorResponse::default()`.
module _ {V P Q : Type 0} (body_ok : HttpRequest V → Bool) (refusal : Q) where
  -- The closure `callback`, with `req0`.
  callback : HttpRequest V → P → Option (HttpRequest V) → Option (HttpRequest V) × Result P Q
  unfolding pure_request
  callback req resp req0 =
      let req1 = pure_request req in
      if body_ok req1 then (some req1, ok resp) else (req0, err refusal)

  run_callback : Option (HttpRequest V × P) → Option (HttpRequest V) × Option (Result P Q)
  unfolding callback
  run_callback none = (none, none)
  run_callback (some (req, resp)) =
      let (req0, answer) = callback req resp none in (req0, some answer)

module _ {V P Q K : Type 0} (body_ok : HttpRequest V → Bool) (refusal : Q) where
  accept_websocket :
      Result (Unit {0}) Error → Handshake V P Q K → Result (ClientSocket K × HttpRequest V) Error
  unfolding run_callback with_request
  accept_websocket (err e) h = err e
  accept_websocket (ok _) h =
      let (req0, answer) = run_callback body_ok refusal h.offered in
      with_request req0 (h.websocket answer)

  -- `Acceptor::accept`.
  unfoldable pub acceptor_accept :
      Acceptor → Handshake V P Q K → Result (ClientSocket K × HttpRequest V) Error
  unfolding accept_websocket tls_accept
  acceptor_accept acceptor h = accept_websocket (tls_accept acceptor h) h

module _ {E I A S D R : Type 0} where
  -- `Server::accept`: when the actor is gone the connection is dropped.
  unfoldable pub server_accept : NewConnection S D R → System E I A S D R → System E I A S D R
  server_accept c s = if s.exited then s else record s { connections = s.connections ++ c ∷ [] }

module _ {E I A D V K : Type 0} where
  offer :
      D
      → Result (ClientSocket K × HttpRequest V) Error
      → System E I A (ClientSocket K) D (HttpRequest V)
      → System E I A (ClientSocket K) D (HttpRequest V)
  unfolding server_accept
  offer peer (err e) s = s
  offer peer (ok (socket, req_body)) s =
      server_accept (record { socket = socket; address = peer; request = req_body }) s

module _ {E I A D V P Q K : Type 0} (body_ok : HttpRequest V → Bool) (refusal : Q)
    (acceptor : Acceptor) where
  -- A round of the loop.
  unfoldable pub accept_round :
      AcceptEvent V P Q K D
      → System E I A (ClientSocket K) D (HttpRequest V)
      → System E I A (ClientSocket K) D (HttpRequest V)
  unfolding offer acceptor_accept
  accept_round tcp_failed s = s
  accept_round (tcp_accepted peer h) s = offer peer (acceptor_accept body_ok refusal acceptor h) s
  accept_round (stalled peer) s = s

  -- `run_acceptor` over the events so far; it never returns. It awaits the handshakes of a client
  -- before it takes the next one: what comes behind a client that stalls is not looked at.
  unfoldable pub run_acceptor :
      List (AcceptEvent V P Q K D)
      → System E I A (ClientSocket K) D (HttpRequest V)
      → System E I A (ClientSocket K) D (HttpRequest V)
  run_acceptor [] s = s
  run_acceptor (stalled peer ∷ es) s = s
  run_acceptor (tcp_failed ∷ es) s = run_acceptor es (accept_round tcp_failed s)
  run_acceptor (tcp_accepted peer h ∷ es) s = run_acceptor es (accept_round (tcp_accepted peer h) s)
