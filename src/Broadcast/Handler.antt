-- ===== src/Broadcast/Handler.antt =====
-- The route of examples/chat-server-axum/src/main.rs. The headers that axum adds to a text response are
-- left out.
use package.text.Mathlib.Text.{◌==◌ as str_eq}
use ezsockets.Axum.{AxumUpgrade, WebSocket, on_upgrade}
use ezsockets.Base.{
  Bool, Bool-cases, Option, Result, String, [], err, false, inl, inr, none, ok, refl, some, true,
  ◌≡◌, ◌⊎◌,
}
use ezsockets.Client.{ClientSocket}
use ezsockets.Request.{HttpRequest}
use ezsockets.Server.System.{System}
use ezsockets.Socket.Message.{Bytes}
use ezsockets.Upgrade.{Rejection, Response}

-- `matches!(kick_me, Some("Yes"))`.
unfoldable pub is_kicked : Option String → Bool
is_kicked none = false
is_kicked (some s) = str_eq s "Yes"

module _ {E I A V D W U K H : Type 0} (sign : Bytes → Bytes) where
  -- A refused upgrade is dropped, and with it its task.
  answer :
      Bool
      → AxumUpgrade V D W U
      → Response
        × (Result K H
            → System E I A (ClientSocket (WebSocket K)) D (HttpRequest V)
            → System E I A (ClientSocket (WebSocket K)) D (HttpRequest V))
  answer true up = (record { status_code = 400; response_headers = [] }, λ r s. s)
  answer false up = on_upgrade sign up

  -- `websocket_handler`, at the `kick_me` of the query; `none` is the panic of `expect`.
  unfoldable pub websocket_handler :
      Option String
      → Result (AxumUpgrade V D W U) Rejection
      → Option (
          Response
          × (Result K H
              → System E I A (ClientSocket (WebSocket K)) D (HttpRequest V)
              → System E I A (ClientSocket (WebSocket K)) D (HttpRequest V)))
  unfolding answer is_kicked
  websocket_handler kick_me (err e) = none
  websocket_handler kick_me (ok up) = some (answer (is_kicked kick_me) up)

module _ {E I A V D W U K : Type 0} (H : Type 0) (sign : Bytes → Bytes) where
  -- Whoever asks to be kicked gets the status 400, and whatever hyper yields then, the server hears
  -- nothing of the connection; anybody else is upgraded.
  pub websocket_handler_lem :
      (kick_me : Option String) (up : AxumUpgrade V D W U)
      → let upgraded = on_upgrade {E = E} {I = I} {A = A} {K = K} {H = H} sign up in
        let handled =
          websocket_handler {E = E} {I = I} {A = A} {K = K} {H = H} sign kick_me (ok up) in
        ((is_kicked kick_me ≡ true)
          × ((response : Response) × (handled ≡ some (response, λ r s. s))
              × (response.status_code ≡ 400)))
        ⊎ ((is_kicked kick_me ≡ false) × (handled ≡ some upgraded))
  unfolding websocket_handler
  websocket_handler_lem kick_me up = elim (Bool-cases (is_kicked kick_me)) [
    | inl k ↦ inl (k, (record { status_code = 400; response_headers = [] }, rw k, refl))
    | inr k ↦ inr (k, rw k)
  ]
