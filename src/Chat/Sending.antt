-- ===== src/Chat/Sending.antt =====
-- Who reads what is said in a room.
use package.text.Mathlib.Text.{◌==◌ as str_eq}
use ezsockets.Base.{
  Bool, Bool-cases, List, String, [], append-nil, append_assoc, arith, if◌then◌else◌, inl, inr,
  some, true, ℕ, ◌++◌, ◌<◌, ◌==◌, ◌∷◌, ◌≡◌, ◌≤◌,
}
use ezsockets.Chat.{
  ChatServer, ChatText, Rooms, contains_key, get_room, on_call, others, said, send, tell,
}
use ezsockets.Chat.Keeping.{ChatInv}
use ezsockets.Chat.Rooms.{contains_key-count, count, count_rooms}

-- The channels of all these sessions take a text.
abbrev pub AllTake : (ℕ → Bool) → List ℕ → Type 0
AllTake takes [] = Unit {0}
AllTake takes (id ∷ ids) = (takes id ≡ true) × AllTake takes ids

abbrev AllPresent : List ℕ → List ℕ → Type 0
AllPresent sessions [] = Unit {0}
AllPresent sessions (id ∷ ids) = (contains_key sessions id ≡ true) × AllPresent sessions ids

-- One post of the text to each of them.
abbrev pub posts : ChatText → List ℕ → List (ℕ × ChatText)
posts notice [] = []
posts notice (id ∷ ids) = (id, notice) ∷ posts notice ids

tell_lem :
    (takes : ℕ → Bool) (notice : ChatText) (ids : List ℕ) (c : ChatServer)
    → AllTake takes ids
    → AllPresent c.sessions ids
    → tell takes notice ids c ≡ some (record c { posted = c.posted ++ posts notice ids })
unfolding tell
tell_lem takes notice [] c t p = ground (arith, append-nil c.posted)
tell_lem takes notice (id ∷ ids) c t p = ground (
  arith,
  append_assoc c.posted ((id, notice) ∷ []) (posts notice ids),
  tell_lem takes notice ids (record c { posted = c.posted ++ (id, notice) ∷ [] }) t.1 p.1,
)

count-le-count_rooms :
    (room : String) (rooms : Rooms) (ids : List ℕ) (id : ℕ)
    → get_room room rooms ≡ some ids
    → count id ids ≤ count_rooms id rooms
unfolding get_room
count-le-count_rooms room [] ids id h = absurd (ground arith)
count-le-count_rooms room ((n, xs) ∷ rest) ids id h = elim (Bool-cases (str_eq n room)) [
  | inl found ↦ ground arith
  | inr missed ↦ ground (arith, count-le-count_rooms room rest ids id)
]

pub count-others :
    (j from : ℕ) (ids : List ℕ) → count j (others from ids) ≡ (if j == from then 0 else count j ids)
unfolding others
count-others j from [] = ground arith
count-others j from (x ∷ xs) = ground (arith, count-others j from xs)

AllPresent-of_count :
    (sessions ids : List ℕ)
    → ((id : ℕ) → 0 < count id ids → contains_key sessions id ≡ true)
    → AllPresent sessions ids
AllPresent-of_count sessions [] h = tt
AllPresent-of_count sessions (id ∷ ids) h =
    (h id (ground arith), AllPresent-of_count sessions ids (λ j lt. h j (omega arith)))

-- What is said in a room is posted, in the order of the room, to everybody in it but the speaker, and
-- changes nothing else; the handler does not panic as long as their channels are there.
pub on_call-send :
    (takes : ℕ → Bool) (from : ℕ) (room t : String) (ids : List ℕ) (c : ChatServer)
    → ChatInv c
    → get_room room c.rooms ≡ some ids
    → AllTake takes (others from ids)
    → (on_call takes (send from room t) c
        ≡ some (record c { posted = c.posted ++ posts (said t) (others from ids) }))
      × ((j : ℕ) → count j (others from ids) ≡ (if j == from then 0 else count j ids))
unfolding on_call
on_call-send takes from room t ids c v g all =
    let present = λ (id : ℕ) (lt : 0 < count id (others from ids)).
      let within : 0 < count id c.sessions = ground (
        arith,
        count-others id from ids,
        count-le-count_rooms room c.rooms ids id g,
        v.counted id,
      ) in
      (contains_key-count c.sessions id).1 within in
    let told =
      tell_lem takes (said t) (others from ids) c all
        (AllPresent-of_count c.sessions (others from ids) present) in
    (ground (arith, g, told), λ j. count-others j from ids)
