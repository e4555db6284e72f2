-- ===== src/Broadcast/Examples.antt =====
-- Two clients chat, and one says two things.
use ezsockets.Base.{Bool, List, Option, [], arith, none, ok, refl, some, true, ℕ, ◌+◌, ◌∷◌, ◌≡◌}
use ezsockets.Broadcast.{
  BroadcastServer, BroadcastSystem, broadcast_ext, broadcast_on_connect, connect_broadcast,
  empty_broadcast, session_ext,
}
use ezsockets.Broadcast.Talking.{calls_for, session_run-heard, take_calls, told_all}
use ezsockets.Broadcast.Telling.{heard}
use ezsockets.Chat.{contains_key, find_id}
use ezsockets.Server.{NewConnection, is_done, server_step}
use ezsockets.Server.System.{Reach, accept, here, next, start, take_connection}
use ezsockets.Session.{Branch, SessionState, session_run}
use ezsockets.Socket.Message.{Message}
use ezsockets.Socket.Signal.{InRawMessage, Signals}

abbrev S : Type 0
S = BroadcastSystem ℕ ℕ ℕ

abbrev began : S
began = start broadcast_ext (some empty_broadcast)

abbrev client : ℕ → NewConnection ℕ ℕ ℕ
client n = record { socket = n; address = 80; request = 0 }

abbrev with_sessions : List ℕ → BroadcastServer
with_sessions ids = record { sessions = ids; posted = [] }

abbrev one_client : S
one_client = record began {
  live = 0 ∷ [];
  actor = record (began.actor) {
    extension = some (with_sessions (0 ∷ []));
    active_sessions = 1;
    spawned = 0 ∷ [];
  };
}

abbrev two_clients : S
two_clients = record one_client {
  live = 0 ∷ 1 ∷ [];
  actor = record (one_client.actor) {
    extension = some (with_sessions (1 ∷ 0 ∷ []));
    active_sessions = 2;
    spawned = 0 ∷ 1 ∷ [];
  };
}

two_clients-Reach : Reach broadcast_ext began two_clients
unfolding server_step is_done connect_broadcast broadcast_on_connect contains_key find_id
two_clients-Reach =
    let r1 : Reach broadcast_ext began (record began { connections = client 5 ∷ [] }) =
      next here (accept (client 5) refl refl) in
    let r2 : Reach broadcast_ext began one_client = next r1 (
      take_connection (client 5) [] (record { not_exited = refl; not_done = refl }) refl
        (omega arith) refl) in
    let r3 : Reach broadcast_ext began (record one_client { connections = client 6 ∷ [] }) =
      next r2 (accept (client 6) refl refl) in
    next r3 (
      take_connection (client 6) [] (record { not_exited = refl; not_done = refl }) refl
        (omega arith) refl)

abbrev everybody : ℕ → Bool
everybody id = true

abbrev takes_all : ℕ → InRawMessage → ℕ × Option InRawMessage
takes_all c m = (c + 1, none)

abbrev no_signals : Signals
no_signals = record { allocated = 0; cell = λ i. 0 }

abbrev two_texts : List (Branch (Unit {0}))
two_texts =
    Branch.incoming (some (ok (Message.text "hello")))
    ∷ Branch.incoming (some (ok (Message.text "there")))
    ∷ []

session_run-heard_example :
    let st : SessionState (Option S) ℕ = record {
      extension = some two_clients;
      channel = 0;
      signals = no_signals;
    } in
    let (st', r) = session_run (session_ext everybody 0) takes_all two_texts st in
    (r ≡ none)
    × (let calls = calls_for everybody 0 ("hello" ∷ "there" ∷ []) in
        let s' = record two_clients { calls = calls } in
        let t = take_calls calls s' in
        (c' : BroadcastServer) × (st'.extension ≡ some s')
        × Reach broadcast_ext two_clients s'
        × Reach broadcast_ext s' t
        × (t.actor.extension ≡ some c')
        × ((j : ℕ) → heard j c'.posted ≡ told_all j (1 ∷ 0 ∷ []) 0 ("hello" ∷ "there" ∷ [])))
session_run-heard_example =
    session_run-heard takes_all everybody 0 two_texts 0 no_signals two_clients
      (with_sessions (1 ∷ 0 ∷ [])) (λ c m. refl) (λ i. refl) two_clients-Reach refl refl refl refl
      tt
