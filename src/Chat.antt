-- ===== src/Chat.antt =====
-- examples/chat-server/src/main.rs: the rooms of a chat server. A `HashMap` is the list of its entries
-- in the order in which it iterates; a session's handle is named by its id. A handler that panics gives
-- `none`. What a handle posts is kept in a log, oldest first.
pub mod Rooms
pub mod Names
pub mod Keeping
pub mod Sending
pub mod Serving
pub mod Chars
pub mod Lines
pub mod Member
mod Examples
use package.text.Mathlib.Text.{◌==◌ as str_eq}
use mathlib.Core.Option
use ezsockets.Base.{
  Bool, List, Option, Result, String, [], err, false, if◌then◌else◌, none, ok, some, suc, zero, ℕ,
  ◌&&◌, ◌++◌, ◌+◌, ◌==◌, ◌||◌, ◌∷◌,
}
use ezsockets.Error.{Error}
use ezsockets.Server.{ServerExt}
use ezsockets.Server.Drain.{then}
use ezsockets.Session.Handlers.{request}
use ezsockets.Socket.Message.{CloseFrame}

pub data ChatMessage : Type 0 where
  -- `Join { id, room }` and `Send { from, room, text }`.
  join : ℕ → String → ChatMessage
  send : ℕ → String → String → ChatMessage

-- The texts that are posted: `text`, and `format!("User with ID: {id} just joined {room} room")`.
pub data ChatText : Type 0 where
  said : String → ChatText
  just_joined : ℕ → String → ChatText

abbrev pub Rooms : Type 0
Rooms = List (String × List ℕ)

pub record ChatServer : Type 0 where
  pub sessions : List ℕ  -- the keys
  pub rooms : Rooms
  pub posted : List (ℕ × ChatText)

abbrev pub default_room : String
default_room = "main"

unfoldable pub contains_key : List ℕ → ℕ → Bool
contains_key [] id = false
contains_key (x ∷ xs) id = x == id || contains_key xs id

-- `position` of the id and `remove` at it, or `HashMap::remove`.
unfoldable pub remove_first : ℕ → List ℕ → List ℕ
remove_first id [] = []
remove_first id (x ∷ xs) = let rest = remove_first id xs in if x == id then xs else x ∷ rest

-- `(0..).find(…)` on a u8, in a release build: the ids from `i` on, of which `n` are left. When all are
-- taken the range starts again, and the search does not end; `none`.
unfoldable pub find_id : ℕ → ℕ → List ℕ → Option ℕ
find_id zero i taken = none
find_id (suc n) i taken =
    let rest = find_id n (i + 1) taken in if contains_key taken i then rest else some i

-- `rooms.get(name)`.
unfoldable pub get_room : String → Rooms → Option (List ℕ)
get_room name [] = none
get_room name ((n, ids) ∷ rest) =
    let later = get_room name rest in if str_eq n name then some ids else later

-- `rooms.get_mut(name)` and `push`; `none` if there is no such room.
unfoldable pub push_room : String → ℕ → Rooms → Option Rooms
push_room name id [] = none
push_room name id ((n, ids) ∷ rest) =
    let later = Option.map (λ r. (n, ids) ∷ r) (push_room name id rest) in
    if str_eq n name then some ((n, ids ++ id ∷ []) ∷ rest) else later

-- `rooms.values_mut().find_map(…)` and `remove`; `none` if no room has the id.
unfoldable pub take_out : ℕ → Rooms → Option Rooms
take_out id [] = none
take_out id ((n, ids) ∷ rest) =
    let later = Option.map (λ r. (n, ids) ∷ r) (take_out id rest) in
    if contains_key ids id then some ((n, remove_first id ids) ∷ rest) else later

-- Push into the room if it is there, else insert a room with the id alone.
unfoldable pub join_room : String → ℕ → Rooms → Rooms
join_room name id rooms = elim (push_room name id rooms) [
  | some pushed ↦ pushed
  | none ↦ rooms ++ (name, id ∷ []) ∷ []
]

-- `.filter(|id| **id != from)`.
unfoldable pub others : ℕ → List ℕ → List ℕ
others from [] = []
others from (x ∷ xs) = let rest = others from xs in if x == from then rest else x ∷ rest

-- The session of each id, and its `text(…).unwrap()`; `takes` says whose channel is still there.
unfoldable pub tell : (ℕ → Bool) → ChatText → List ℕ → ChatServer → Option ChatServer
tell takes notice [] c = some c
tell takes notice (id ∷ ids) c =
    let rest = tell takes notice ids (record c { posted = c.posted ++ (id, notice) ∷ [] }) in
    if contains_key c.sessions id && takes id then rest else none

-- `on_connect` once the id is found.
connect_as : Option ℕ → ChatServer → Option (ChatServer × ℕ)
connect_as none c = none
connect_as (some id) c = elim (push_room default_room id c.rooms) [
  | none ↦ none
  | some rooms ↦ some (record c { sessions = id ∷ c.sessions; rooms = rooms }, id)
]

-- `ChatServer::on_connect`, with the id of the session.
unfoldable pub on_connect : ChatServer → Option (ChatServer × ℕ)
unfolding connect_as
on_connect c = connect_as (find_id 256 0 c.sessions) c

-- `ChatServer::on_disconnect`.
unfoldable pub on_disconnect : ℕ → ChatServer → Option ChatServer
on_disconnect id c =
    let left =
      Option.map (λ rooms. record c { sessions = remove_first id c.sessions; rooms = rooms })
        (take_out id c.rooms) in
    if contains_key c.sessions id then left else none

-- The rest of `Join` once the id has left its room.
rejoin : (ℕ → Bool) → ℕ → String → Option Rooms → ChatServer → Option ChatServer
rejoin takes id room none c = none
rejoin takes id room (some rooms) c =
    let c' = record c { rooms = join_room room id rooms } in
    elim (get_room room c'.rooms) [
      | none ↦ none
      | some ids ↦ tell takes (just_joined id room) ids c'
    ]

-- `ChatServer::on_call`.
unfoldable pub on_call : (ℕ → Bool) → ChatMessage → ChatServer → Option ChatServer
unfolding rejoin
on_call takes (send from room notice) c = elim (get_room room c.rooms) [
  | none ↦ none
  | some ids ↦ tell takes (said notice) (others from ids) c
]
on_call takes (join id room) c = rejoin takes id room (take_out id c.rooms) c

-- What `main` starts with.
abbrev pub empty_chat : ChatServer
empty_chat = record { sessions = []; rooms = (default_room, []) ∷ []; posted = [] }

-- The extension of the library's server: a state `none` has panicked. A call comes with what the
-- channels of the sessions answer when it is handled.
lift_connect : Option (ChatServer × ℕ) → Option ChatServer × Result ℕ (Option CloseFrame)
lift_connect none = (none, err none)
lift_connect (some (c, id)) = (some c, ok id)

unfoldable pub lift_handler : Option ChatServer → Option ChatServer × Result (Unit {0}) Error
lift_handler c = (c, ok tt)

unfoldable pub and_then : Option ChatServer → (ChatServer → Option ChatServer) → Option ChatServer
and_then none f = none
and_then (some c) f = f c

unfoldable pub connect_chat : Option ChatServer → Option ChatServer × Result ℕ (Option CloseFrame)
unfolding lift_connect
connect_chat none = (none, err none)
connect_chat (some c) = lift_connect (on_connect c)

abbrev pub chat_ext :
    {S D R : Type 0} → ServerExt (Option ChatServer) ℕ ((ℕ → Bool) × ChatMessage) S D R
chat_ext = record {
  on_connect = λ e socket request address. connect_chat e;
  on_disconnect = λ e id result. lift_handler (and_then e (on_disconnect id));
  on_call = λ e call. lift_handler (and_then e (on_call call.0 call.1));
}
