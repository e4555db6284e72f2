-- ===== src/Chat/Examples.antt =====
-- Two clients chat, and one leaves while its request to move is queued.
use ezsockets.Base.{
  Bool, [], arith, if◌then◌else◌, none, ok, refl, some, true, ℕ, ◌+◌, ◌==◌, ◌∷◌, ◌≡◌, ◌≢◌, ◌≤◌,
}
use ezsockets.Chat.{
  ChatServer, chat_ext, connect_chat, contains_key, default_room, empty_chat, find_id, get_room,
  join, on_call, on_connect, on_disconnect, others, push_room, said, send,
}
use ezsockets.Chat.Keeping.{ChatInv}
use ezsockets.Chat.Rooms.{count, count_rooms}
use ezsockets.Chat.Sending.{on_call-send}
use ezsockets.Chat.Serving.{ChatSystem, late_join_panics, leaving_never_panics}
use ezsockets.Server.{NewConnection, ServerEvent, is_done, server_step}
use ezsockets.Server.System.{
  Reach, Step, accept, here, next, round, session_ends, start, take_connection,
}

-- Two sessions in the default room, the second of which changes to another.
abbrev two_sessions : ChatServer
two_sessions = record {
  sessions = 1 ∷ 0 ∷ [];
  rooms = (default_room, 0 ∷ 1 ∷ []) ∷ [];
  posted = [];
}

abbrev everybody : ℕ → Bool
everybody id = true

two_sessions-ChatInv : ChatInv two_sessions
two_sessions-ChatInv = record {
  counted = λ id. ground arith;
  unique = λ id. ground arith;
  main = refl;
}

on_call-send_example :
    (on_call everybody (send 0 default_room "hi") two_sessions
      ≡ some (record two_sessions { posted = (1, said "hi") ∷ [] }))
    × ((j : ℕ) → count j (1 ∷ []) ≡ (if j == 0 then 0 else count j (0 ∷ 1 ∷ [])))
unfolding others
on_call-send_example =
    on_call-send everybody 0 default_room "hi" (0 ∷ 1 ∷ []) two_sessions two_sessions-ChatInv
      (unfold get_room in refl) (refl, tt)

abbrev S : Type 0
S = ChatSystem ℕ ℕ ℕ

abbrev began : S
began = start chat_ext (some empty_chat)

abbrev one_client : NewConnection ℕ ℕ ℕ
one_client = record { socket = 5; address = 80; request = 0 }

abbrev alone : ChatServer
alone = record { sessions = 0 ∷ []; rooms = (default_room, 0 ∷ []) ∷ []; posted = [] }

abbrev joined : S
joined = record began {
  live = 0 ∷ [];
  actor = record (began.actor) { extension = some alone; active_sessions = 1; spawned = 0 ∷ [] };
}

-- Its session asks for another room, and ends.
abbrev leaving : S
leaving = record joined {
  live = [];
  calls = (everybody, join 0 "other") ∷ [];
  disconnections = (0, ok none) ∷ [];
}

leaving-Reach : Reach chat_ext began leaving
unfolding server_step is_done connect_chat on_connect push_room contains_key find_id
leaving-Reach =
    let r1 : Reach chat_ext began (record began { connections = one_client ∷ [] }) =
      next here (accept one_client refl refl) in
    let r2 : Reach chat_ext began joined = next r1 (
      take_connection one_client [] (record { not_exited = refl; not_done = refl }) refl
        (omega arith) refl) in
    let r3 : Reach chat_ext began (record joined { calls = leaving.calls }) =
      next r2 (Step.call (everybody, join 0 "other") refl refl) in
    next r3 (session_ends [] 0 [] (ok none) refl refl)

leaving_never_panics_example :
    (c : ChatServer) × (on_disconnect 0 alone ≡ some c)
    × (count_rooms 0 c.rooms ≡ 0)
    × ((j : ℕ) → count_rooms j c.rooms ≡ count j [] + count j [])
    × ((j : ℕ) → count j [] + count j [] ≤ 1)
leaving_never_panics_example =
    leaving_never_panics leaving alone 0 (ok none) [] leaving-Reach refl refl

late_join_panics_example :
    let s1 =
      round chat_ext
        (ServerEvent.disconnected 0 (ok none))
        (record leaving { disconnections = [] }) in
    let s2 =
      round chat_ext (ServerEvent.called (everybody, join 0 "other")) (record s1 { calls = [] }) in
    Step chat_ext leaving s1
    × Step chat_ext s1 s2
    × (s1.actor.extension ≡ on_disconnect 0 alone)
    × (on_disconnect 0 alone ≢ none)
    × (s2.actor.extension ≡ none)
late_join_panics_example =
    late_join_panics leaving alone 0 "other" everybody (ok none) [] [] leaving-Reach refl refl refl
      refl refl
