-- ===== src/Typing/Examples.antt =====
-- A user types a line, and then "exit".
use ezsockets.Base.{
  List, Option, [], false, map, none, ok, refl, some, true, ℕ, ◌++◌, ◌∷◌, ◌≡◌, ◌⊎◌,
}
use ezsockets.Client.{ClientConfig, ClientSocket}
use ezsockets.Client.Actor.{ClientEvent, client_run, client_step, returned, running}
use ezsockets.Client.Connect.{ClientState}
use ezsockets.Socket.Heartbeat.{default_config}
use ezsockets.Socket.Message.{Message, Utf8Bytes}
use ezsockets.Typing.{adios, line_message, line_on_call, typing_ext}
use ezsockets.Typing.Exiting.{client_run-says_exit, lines, says_exit}

abbrev config : ClientConfig ℕ ℕ
config = record {
  url = 0;
  max_initial_connect_attempts = 1;
  max_reconnect_attempts = 1;
  reconnect_interval = 5;
  headers = 0;
  socket_config = none;
}

abbrev link : ClientSocket ℕ
link = record { socket_impl = 7; config = default_config }

abbrev fresh_client : ClientState (Option (List Message)) ℕ
fresh_client = record {
  extension = some [];
  signals = record { allocated = 0; cell = λ i. 0 };
  world = [];
  connects = 1;
  slept = [];
}

abbrev sends_out : Message → ClientEvent Utf8Bytes
sends_out m = ClientEvent.outgoing (record { message = some m; signal = none }) false (ok tt)

abbrev evening : List (ClientEvent Utf8Bytes)
evening =
    ClientEvent.called "hello"
    ∷ ClientEvent.incoming (some (ok (Message.text "welcome")))
    ∷ sends_out (Message.text "hello")
    ∷ ClientEvent.called "exit"
    ∷ sends_out (Message.close (some adios))
    ∷ []

abbrev two_posts : List Message
two_posts = Message.text "hello" ∷ Message.close (some adios) ∷ []

client_run-says_exit_example :
    let p = (client_run (typing_ext true) config evening link fresh_client).1 in
    ((says_exit (lines evening) ≡ true)
      × (p ≡ returned (ok tt))
      × ((before : List Utf8Bytes) × (after : List Utf8Bytes) × (lines evening ≡ before ++ after)
          × (says_exit before ≡ true)
          × (two_posts ≡ map line_message before)))
    ⊎ ((says_exit (lines evening) ≡ false)
        × (p ≡ running link)
        × (two_posts ≡ map Message.text (lines evening)))
unfolding client_run client_step line_on_call
client_run-says_exit_example =
    client_run-says_exit config evening link fresh_client two_posts (refl, (refl, tt)) refl refl
      refl
