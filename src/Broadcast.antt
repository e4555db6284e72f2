-- ===== src/Broadcast.antt =====
-- examples/chat-server-axum/src/main.rs: a chat without rooms, whose server and sessions are extensions
-- of the library's. A `HashMap` is the list of its keys in the order in which it iterates; a handler
-- that panics gives `none`. What the handles post is kept in a log, oldest first.
pub mod Telling
pub mod Keeping
pub mod Talking
pub mod Handler
mod Examples
use ezsockets.Base.{
  Bool, List, Option, Result, [], err, if◌then◌else◌, none, ok, some, ℕ, ◌++◌, ◌^◌, ◌∷◌,
}
use ezsockets.Chat.{contains_key, find_id, on_call, on_connect, on_disconnect, others, remove_first}
use ezsockets.Error.{Error}
use ezsockets.Server.{ServerExt}
use ezsockets.Server.Drain.{then}
use ezsockets.Server.System.{System}
use ezsockets.Session.{SessionExt}
use ezsockets.Session.Handlers.{request}
use ezsockets.Socket.Message.{CloseFrame, Utf8Bytes}

-- `ChatMessage::Send { from, text }`.
pub data BroadcastMessage : Type 0 where
  send : ℕ → Utf8Bytes → BroadcastMessage

-- `format!("from {from}: {text}")`.
pub data FromText : Type 0 where
  from_text : ℕ → Utf8Bytes → FromText

pub record BroadcastServer : Type 0 where
  pub sessions : List ℕ  -- the keys
  pub posted : List (ℕ × FromText)

-- `ChatServer::on_connect`, at the id that is found; the ids are of 16 bits.
insert_session : Option ℕ → BroadcastServer → Option (BroadcastServer × ℕ)
insert_session none c = none
insert_session (some id) c = some (record c { sessions = id ∷ c.sessions }, id)

unfoldable pub broadcast_on_connect : BroadcastServer → Option (BroadcastServer × ℕ)
unfolding insert_session
broadcast_on_connect c = insert_session (find_id (2 ^ 16) 0 c.sessions) c

-- `ChatServer::on_disconnect`, with its `assert!`.
unfoldable pub broadcast_on_disconnect : ℕ → BroadcastServer → Option BroadcastServer
broadcast_on_disconnect id c =
    if contains_key c.sessions id
    then some (record c { sessions = remove_first id c.sessions })
    else none

-- `handle.text(…).unwrap()` for each of them; `takes` says whose channel is still there.
unfoldable pub text_all : (ℕ → Bool) → FromText → List ℕ → BroadcastServer → Option BroadcastServer
text_all takes t [] c = some c
text_all takes t (id ∷ ids) c =
    let rest = text_all takes t ids (record c { posted = c.posted ++ (id, t) ∷ [] }) in
    if takes id then rest else none

-- `ChatServer::on_call`.
unfoldable pub broadcast_on_call :
    (ℕ → Bool) → BroadcastMessage → BroadcastServer → Option BroadcastServer
broadcast_on_call takes (send from t) c =
    text_all takes (from_text from t) (others from c.sessions) c

-- What `main` starts with.
abbrev pub empty_broadcast : BroadcastServer
empty_broadcast = record { sessions = []; posted = [] }

-- The extension of the library's server: a state `none` has panicked. A call comes with what the
-- channels of the sessions answer when it is handled.
connect_result :
    Option (BroadcastServer × ℕ) → Option BroadcastServer × Result ℕ (Option CloseFrame)
connect_result none = (none, err none)
connect_result (some (c, id)) = (some c, ok id)

unfoldable pub connect_broadcast :
    Option BroadcastServer → Option BroadcastServer × Result ℕ (Option CloseFrame)
unfolding connect_result
connect_broadcast none = (none, err none)
connect_broadcast (some c) = connect_result (broadcast_on_connect c)

unfoldable pub disconnect_broadcast : ℕ → Option BroadcastServer → Option BroadcastServer
disconnect_broadcast id none = none
disconnect_broadcast id (some c) = broadcast_on_disconnect id c

unfoldable pub call_broadcast :
    (ℕ → Bool) → BroadcastMessage → Option BroadcastServer → Option BroadcastServer
call_broadcast takes call none = none
call_broadcast takes call (some c) = broadcast_on_call takes call c

abbrev pub broadcast_ext :
    {S D R : Type 0} → ServerExt (Option BroadcastServer) ℕ ((ℕ → Bool) × BroadcastMessage) S D R
broadcast_ext = record {
  on_connect = λ e socket request address. connect_broadcast e;
  on_disconnect = λ e id result. (disconnect_broadcast id e, ok tt);
  on_call = λ e call. (call_broadcast call.0 call.1 e, ok tt);
}

abbrev pub BroadcastSystem : Type 0 → Type 0 → Type 0 → Type 0
BroadcastSystem S D R = System (Option BroadcastServer) ℕ ((ℕ → Bool) × BroadcastMessage) S D R

module _ {S D R : Type 0} where
  -- `self.server.call(…).unwrap()`: it panics if the server's actor is gone.
  call_server :
      (ℕ → Bool)
      → BroadcastMessage
      → Option (BroadcastSystem S D R)
      → Option (BroadcastSystem S D R)
  call_server takes call none = none
  call_server takes call (some s) =
      if s.exited then none else some (record s { calls = s.calls ++ (takes, call) ∷ [] })

  -- `ChatSession::on_text`, over the server to which it talks.
  unfoldable pub session_on_text :
      (ℕ → Bool)
      → ℕ
      → Utf8Bytes
      → Option (BroadcastSystem S D R)
      → Option (BroadcastSystem S D R) × Result (Unit {0}) Error
  unfolding call_server
  session_on_text takes id t s = (call_server takes (send id t) s, ok tt)

  -- The session as an extension of the library's; `on_binary` is `unimplemented!()`.
  abbrev pub session_ext : (ℕ → Bool) → ℕ → SessionExt (Option (BroadcastSystem S D R)) (Unit {0})
  session_ext takes id = record {
    on_text = λ s t. session_on_text takes id t s;
    on_binary = λ s bytes. (none, ok tt);
    on_call = λ s call. (s, ok tt);
  }
