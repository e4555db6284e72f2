-- ===== src/Client/Examples.antt =====
-- Clients that cannot connect, that are closed, and that reconnect.
use ezsockets.Base.{
  List, [], arith, err, none, ok, refl, replicate, some, true, ℕ, ◌+◌, ◌∷◌, ◌≡◌, ◌≢◌, ◌≤◌,
}
use ezsockets.Client.{ClientConfig, ClientExt, ClientSocket, reconnect}
use ezsockets.Client.Actor.{ClientEvent, client_run, client_step, returned}
use ezsockets.Client.Actor.Closing.{close_wins}
use ezsockets.Client.Actor.Reconnecting.{client_step_reconnects}
use ezsockets.Client.Connect.{Attempt, ClientState, attempt, client_connect, is_close}
use ezsockets.Client.Connect.Attempts.{client_connect-connects, client_connect-returns}
use ezsockets.Client.Connect.Discarding.{client_connect-discards}
use ezsockets.Client.Connect.GivingUp.{Unreachable, client_connect-gives_up}
use ezsockets.Error.{Error, WsError}
use ezsockets.Socket.Heartbeat.{default_config}
use ezsockets.Socket.Message.{Message}
use ezsockets.Socket.Signal.{InMessage, failed, status}

abbrev demo : ClientExt (List ℕ) ℕ
demo = record {
  on_text = λ e s. (1 ∷ e, ok tt);
  on_binary = λ e bytes. (2 ∷ e, ok tt);
  on_call = λ e a. (a ∷ e, ok tt);
  on_connect = λ e. (3 ∷ e, ok tt);
  on_connect_fail = λ e x. (4 ∷ e, ok reconnect);
  on_close = λ e f. (5 ∷ e, ok reconnect);
  on_disconnect = λ e. (6 ∷ e, ok reconnect);
}

-- Three attempts at most, 50 apart.
abbrev three : ClientConfig ℕ ℕ
three = record {
  url = 0;
  max_initial_connect_attempts = 3;
  max_reconnect_attempts = 3;
  reconnect_interval = 50;
  headers = 0;
  socket_config = none;
}

abbrev unread : InMessage
unread = record { message = some (Message.text "too early"); signal = some 0 }

abbrev refuses : List InMessage → Attempt ℕ
refuses inbox = record { inbox = inbox; is_open = true; result = err WsError.io }

abbrev opens : Attempt ℕ
opens = record { inbox = []; is_open = true; result = ok 8 }

abbrev facing : List (Attempt ℕ) → ClientState (List ℕ) ℕ
facing world = record {
  extension = [];
  signals = record { allocated = 1; cell = λ i. 0 };
  world = world;
  connects = 0;
  slept = [];
}

abbrev outage : List (Attempt ℕ)
outage = refuses [] ∷ refuses (unread ∷ []) ∷ refuses [] ∷ refuses [] ∷ []

outage-Unreachable : Unreachable outage
unfolding is_close
outage-Unreachable =
    (tt, refl, refl, ((refl, tt), refl, refl, (tt, refl, refl, (tt, refl, refl, tt))))

client_connect-gives_up_example :
    let (st, r) = client_connect demo three 3 (facing outage) in
    (r ≡ some (err (Error.failed_to_connect 3))) × (st.connects ≡ 3) × (st.slept ≡ 50 ∷ 50 ∷ [])
client_connect-gives_up_example =
    client_connect-gives_up demo three 3 (facing outage) (λ x e. refl) outage-Unreachable
      (omega arith)

client_connect-returns_example : (client_connect demo three 3 (facing outage)).1 ≢ none
client_connect-returns_example =
    client_connect-returns demo three 3 (facing outage) (omega arith) (omega arith)

client_connect-connects_example : (client_connect demo three 3 (facing outage)).0.connects ≤ 3
client_connect-connects_example = client_connect-connects demo three 3 (facing outage)

client_connect-discards_example :
    status (client_connect demo three 3 (facing outage)).0.signals 0 ≡ failed
client_connect-discards_example =
    client_connect-discards demo three 3 (refuses [] ∷ []) (refuses [] ∷ refuses [] ∷ [])
      (refuses (unread ∷ [])) [] [] unread 0 (facing outage) refl refl tt refl
      (unfold client_connect attempt in refl)

-- The second attempt succeeds.
abbrev recovery : List (Attempt ℕ)
recovery = refuses [] ∷ opens ∷ []

abbrev opened : ClientSocket ℕ
opened = record { socket_impl = 8; config = default_config }

client_step_reconnects_example :
    let (st, r) =
      client_step demo three
        (ClientEvent.incoming (some (ok (Message.close none))))
        opened
        (facing recovery) in
    ((k : ClientSocket ℕ)
      → r ≡ some (ok (some k))
      → (n : ℕ) × (st.connects ≡ 0 + n + 1)
        × (st.slept ≡ three.reconnect_interval ∷ replicate n three.reconnect_interval))
    × (r ≡ none
        → (n : ℕ) × (st.connects ≡ 0 + n + 0)
          × (st.slept ≡ three.reconnect_interval ∷ replicate n three.reconnect_interval))
client_step_reconnects_example =
    client_step_reconnects demo three (some (ok (Message.close none))) opened (facing recovery) tt

abbrev goodbye : InMessage
goodbye = record { message = some (Message.close none); signal = none }

close_wins_example :
    let (st, p) =
      client_run demo three
        (ClientEvent.outgoing goodbye true (err WsError.io) ∷ ClientEvent.called 1 ∷ [])
        opened
        (facing recovery) in
    (p ≡ returned (ok tt)) × (st.extension ≡ []) × (st.connects ≡ 0) × (st.slept ≡ [])
close_wins_example =
    close_wins demo three goodbye true (err WsError.io) (ClientEvent.called 1 ∷ []) opened
      (facing recovery) (unfold is_close in refl)
