-- ===== src/Client/System/Examples.antt =====
-- A client that is posted to while it connects, while it is connected, and with its good-bye.
use ezsockets.Base.{List, [], err, false, none, ok, refl, some, suc, ℕ, ◌∷◌, ◌≡◌}
use ezsockets.Client.{ClientConfig, ClientExt, reconnect}
use ezsockets.Client.Actor.{client_step}
use ezsockets.Client.System.{
  ClientMove, ClientSystem, client_move, client_moves, dialing, dials, drains, over, takes_message,
  writes,
}
use ezsockets.Error.{WsError}
use ezsockets.Handle.{post}
use ezsockets.Socket.Message.{Message}
use ezsockets.Socket.Signal.{InMessage, failed, sending, status}

abbrev silent : ClientExt ℕ ℕ
silent = record {
  on_text = λ e s. (suc e, ok tt);
  on_binary = λ e bytes. (e, ok tt);
  on_call = λ e a. (e, ok tt);
  on_connect = λ e. (e, ok tt);
  on_connect_fail = λ e x. (e, ok reconnect);
  on_close = λ e f. (e, ok reconnect);
  on_disconnect = λ e. (e, ok reconnect);
}

abbrev config : ClientConfig ℕ ℕ
config = record {
  url = 0;
  max_initial_connect_attempts = 3;
  max_reconnect_attempts = 3;
  reconnect_interval = 5;
  headers = 0;
  socket_config = none;
}

abbrev starting : ClientSystem ℕ ℕ ℕ
starting = record {
  state = record {
    extension = 0;
    signals = record { allocated = 0; cell = λ i. 0 };
    world = [];
    connects = 0;
    slept = [];
  };
  to_socket = [];
  calls = [];
  phase = dialing 3 1;
  handed = [];
}

abbrev day : List (ClientMove ℕ ℕ)
day =
    writes (Message.text "early")
    ∷ drains
    ∷ dials (err WsError.io)
    ∷ drains
    ∷ writes (Message.text "hi")
    ∷ dials (ok 7)
    ∷ takes_message false (ok tt)
    ∷ writes (Message.close none)
    ∷ writes (Message.text "late")
    ∷ takes_message false (ok tt)
    ∷ []

abbrev message_of : ℕ → Message → InMessage
message_of i m = record { message = some m; signal = some i }

-- The early text fails; the other and the close message are sent. The late one stays in the channel of
-- a client that is over, and its signal goes on reading `Sending`.
day_ends :
    let t = client_moves silent config day starting in
    (status t.state.signals 0 ≡ failed)
    × (status t.state.signals 3 ≡ sending)
    × (t.handed ≡ message_of 1 (Message.text "hi") ∷ message_of 2 (Message.close none) ∷ [])
    × (t.phase ≡ over (ok tt))
    × (t.to_socket ≡ message_of 3 (Message.text "late") ∷ [])
unfolding client_moves client_move status post client_step
day_ends = (refl, refl, refl, refl, refl)
