-- ===== src/Chat/Keeping.antt =====
-- The invariant of the chat server.
use ezsockets.Base.{
  Bool, List, Option-cases, String, [], ap, arith, false, if◌then◌else◌, inl, inr, refl, some, true,
  ℕ, ◌++◌, ◌+◌, ◌<◌, ◌==◌, ◌∙◌, ◌∷◌, ◌≡◌, ◌≤◌,
}
use ezsockets.Chat.{
  connect_as, rejoin, ChatMessage, ChatServer, ChatText, Rooms, contains_key, default_room,
  empty_chat, find_id, get_room, join, join_room, just_joined, on_call, on_connect, on_disconnect,
  others, push_room, remove_first, said, send, take_out, tell,
}
use ezsockets.Chat.Names.{
  find_id-free, has_room, has_room-join_room, has_room-push_room, has_room-take_out,
}
use ezsockets.Chat.Rooms.{
  contains_key-count, count, count-join_room, count-push_room, count-remove_first, count-take_out,
  count_rooms, take_out-some,
}

pub record ChatInv (c : ChatServer) : Type 0 where
  -- Every session stands in exactly one room, once, and nobody else in any.
  pub counted : (id : ℕ) → count_rooms id c.rooms ≡ count id c.sessions
  pub unique : (id : ℕ) → count id c.sessions ≤ 1
  pub main : has_room default_room c.rooms ≡ true

pub empty_chat-ChatInv : ChatInv empty_chat
empty_chat-ChatInv = record { counted = λ id. refl; unique = λ id. omega arith; main = refl }

connect_as-ChatInv :
    (c c' : ChatServer) (id id' : ℕ)
    → ChatInv c
    → contains_key c.sessions id ≡ false
    → connect_as (some id) c ≡ some (c', id')
    → ChatInv c' × (c'.sessions ≡ id ∷ c.sessions) × (id' ≡ id)
unfolding connect_as
connect_as-ChatInv c c' id id' v free h = elim (Option-cases (push_room default_room id c.rooms)) [
  | inl e ↦ absurd (ground arith)
  | inr (rooms, e) ↦
      let same : c' ≡ record c { sessions = id ∷ c.sessions; rooms = rooms } = ground arith in
      (
        rw same (record {
          counted =
              λ j. ground (arith, count-push_room j id default_room c.rooms rooms e, v.counted j);
          unique = λ j. ground (arith, contains_key-count c.sessions id, v.unique j);
          main = has_room-push_room default_room default_room id c.rooms rooms e ∙ v.main;
        }),
        ap (λ x. x.sessions) same,
        ground arith,
      )
]

pub on_connect-ChatInv :
    (c c' : ChatServer) (id : ℕ)
    → ChatInv c
    → on_connect c ≡ some (c', id)
    → ChatInv c' × (c'.sessions ≡ id ∷ c.sessions) × (id < 256)
unfolding on_connect
on_connect-ChatInv c c' id v h = elim (Option-cases (find_id 256 0 c.sessions)) [
  | inl e ↦ absurd (ground arith)
  | inr (i, e) ↦
      let (free, small) = find_id-free 256 0 i c.sessions e in
      let (v', s, same) = connect_as-ChatInv c c' i id v free (rw e at h) in
      (v', rw same s, omega (arith, same))
]

pub on_disconnect-ChatInv :
    (c c' : ChatServer) (id : ℕ)
    → ChatInv c
    → on_disconnect id c ≡ some c'
    → ChatInv c' × ((j : ℕ) → count j c'.sessions + (if j == id then 1 else 0) ≡ count j c.sessions)
unfolding on_disconnect
on_disconnect-ChatInv c c' id v h = elim (Option-cases (take_out id c.rooms)) [
  | inl e ↦ absurd (ground arith)
  | inr (rooms, e) ↦
      let same : c' ≡ record c { sessions = remove_first id c.sessions; rooms = rooms } =
        ground arith in
      let present : contains_key c.sessions id ≡ true = ground arith in
      rw same (
        record {
          counted = λ j. ground (
            arith,
            count-take_out j id c.rooms rooms e,
            count-remove_first j id c.sessions,
            v.counted j,
          );
          unique = λ j. ground (arith, count-remove_first j id c.sessions, v.unique j);
          main = has_room-take_out default_room id c.rooms rooms e ∙ v.main;
        },
        λ j. ground (arith, count-remove_first j id c.sessions, contains_key-count c.sessions id),
      )
]

-- A session that is there can leave.
pub on_disconnect-some :
    (c : ChatServer) (id : ℕ)
    → ChatInv c
    → 0 < count id c.sessions
    → (c' : ChatServer) × (on_disconnect id c ≡ some c')
unfolding on_disconnect
on_disconnect-some c id v h =
    let (rooms, e) = take_out-some id c.rooms (omega (arith, v.counted id)) in
    (
      record c { sessions = remove_first id c.sessions; rooms = rooms },
      ground (arith, e, contains_key-count c.sessions id),
    )

-- Posting changes the log only.
pub tell_keeps :
    (takes : ℕ → Bool) (notice : ChatText) (ids : List ℕ) (c c' : ChatServer)
    → tell takes notice ids c ≡ some c'
    → (c'.sessions ≡ c.sessions) × (c'.rooms ≡ c.rooms)
unfolding tell
tell_keeps takes notice [] c c' h = ground arith
tell_keeps takes notice (id ∷ ids) c c' h =
    ground
      (arith, tell_keeps takes notice ids (record c { posted = c.posted ++ (id, notice) ∷ [] }) c')

ChatInv-cast :
    (c c' : ChatServer) → c'.sessions ≡ c.sessions → c'.rooms ≡ c.rooms → ChatInv c → ChatInv c'
ChatInv-cast c c' s r v = record {
  counted = λ id. ground (arith, v.counted id);
  unique = λ id. ground (arith, v.unique id);
  main = ground (arith, v.main);
}

rejoin-ChatInv :
    (takes : ℕ → Bool) (id : ℕ) (room : String) (rooms : Rooms) (c c' : ChatServer)
    → ChatInv c
    → take_out id c.rooms ≡ some rooms
    → rejoin takes id room (some rooms) c ≡ some c'
    → ChatInv c' × (c'.sessions ≡ c.sessions)
unfolding rejoin
rejoin-ChatInv takes id room rooms c c' v e h =
    let moved = record c { rooms = join_room room id rooms } in
    elim (Option-cases (get_room room moved.rooms)) [
      | inl g ↦ absurd (ground arith)
      | inr (ids, g) ↦
          let kept = tell_keeps takes (just_joined id room) ids moved c' (ground arith) in
          let inv : ChatInv moved = record {
            counted = λ j. ground (
              arith,
              count-join_room j id room rooms,
              count-take_out j id c.rooms rooms e,
              v.counted j,
            );
            unique = λ j. v.unique j;
            main =
                has_room-join_room default_room room id rooms
                  (has_room-take_out default_room id c.rooms rooms e ∙ v.main);
          } in
          (ChatInv-cast moved c' kept.0 kept.1 inv, kept.0)
    ]

pub on_call-ChatInv :
    (takes : ℕ → Bool) (call : ChatMessage) (c c' : ChatServer)
    → ChatInv c
    → on_call takes call c ≡ some c'
    → ChatInv c' × (c'.sessions ≡ c.sessions)
unfolding on_call
on_call-ChatInv takes (send from room said_text) c c' v h =
    elim (Option-cases (get_room room c.rooms)) [
      | inl e ↦ absurd (ground arith)
      | inr (ids, e) ↦
          let kept = tell_keeps takes (said said_text) (others from ids) c c' (ground arith) in
          (ChatInv-cast c c' kept.0 kept.1 v, kept.0)
    ]
on_call-ChatInv takes (join id room) c c' v h = elim (Option-cases (take_out id c.rooms)) [
  | inl e ↦ absurd (ground arith)
  | inr (rooms, e) ↦ rejoin-ChatInv takes id room rooms c c' v e (rw e at h)
]
