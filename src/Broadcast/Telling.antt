-- ===== src/Broadcast/Telling.antt =====
-- Who reads a text.
use ezsockets.Base.{
  Bool, List, [], append-nil, append_assoc, arith, if◌then◌else◌, refl, some, true, ℕ, ◌++◌, ◌==◌,
  ◌∷◌, ◌≡◌, ◌≤◌,
}
use ezsockets.Broadcast.{
  BroadcastMessage, BroadcastServer, FromText, broadcast_on_call, from_text, text_all,
}
use ezsockets.Chat.{contains_key, others}
use ezsockets.Chat.Rooms.{contains_key-count, count}
use ezsockets.Chat.Sending.{count-others}
use ezsockets.Socket.Message.{Utf8Bytes}

-- What a session was sent, in order.
abbrev pub heard : ℕ → List (ℕ × FromText) → List FromText
heard j [] = []
heard j ((i, t) ∷ ps) = let rest = heard j ps in if i == j then t ∷ rest else rest

-- The keys of a `HashMap` are distinct.
abbrev pub AreKeys : List ℕ → Type 0
AreKeys ids = (i : ℕ) → count i ids ≤ 1

heard-append : (j : ℕ) (xs ys : List (ℕ × FromText)) → heard j (xs ++ ys) ≡ heard j xs ++ heard j ys
heard-append j [] ys = refl
heard-append j ((i, t) ∷ xs) ys = ground (arith, heard-append j xs ys)

abbrev pub posts_of : FromText → List ℕ → List (ℕ × FromText)
posts_of t [] = []
posts_of t (id ∷ ids) = (id, t) ∷ posts_of t ids

heard-posts_of :
    (j : ℕ) (t : FromText) (ids : List ℕ)
    → ((count j ids ≡ 0) → heard j (posts_of t ids) ≡ [])
      × ((count j ids ≡ 1) → heard j (posts_of t ids) ≡ t ∷ [])
heard-posts_of j t [] = (λ h. refl, λ h. absurd (ground arith))
heard-posts_of j t (id ∷ ids) =
    let (none_of, one_of) = heard-posts_of j t ids in
    (λ h. ground (arith, none_of), λ h. ground (arith, none_of, one_of))

pub text_all_lem :
    (takes : ℕ → Bool) (t : FromText) (ids : List ℕ) (c : BroadcastServer)
    → ((i : ℕ) → takes i ≡ true)
    → text_all takes t ids c ≡ some (record c { posted = c.posted ++ posts_of t ids })
unfolding text_all
text_all_lem takes t [] c all = ground (arith, append-nil c.posted)
text_all_lem takes t (id ∷ ids) c all = ground (
  arith,
  all id,
  append_assoc c.posted ((id, t) ∷ []) (posts_of t ids),
  text_all_lem takes t ids (record c { posted = c.posted ++ (id, t) ∷ [] }) all,
)

-- What one call adds to what a session hears.
abbrev pub told : ℕ → List ℕ → ℕ → FromText → List FromText
told j sessions from t = if j == from then [] else if contains_key sessions j then t ∷ [] else []

pub broadcast_on_call_lem :
    (takes : ℕ → Bool) (from : ℕ) (t : Utf8Bytes) (c : BroadcastServer)
    → ((i : ℕ) → takes i ≡ true)
    → AreKeys c.sessions
    → (c' : BroadcastServer) × (broadcast_on_call takes (BroadcastMessage.send from t) c ≡ some c')
      × (c'.sessions ≡ c.sessions)
      × ((j : ℕ)
          → heard j c'.posted ≡ heard j c.posted ++ told j c.sessions from (from_text from t))
unfolding broadcast_on_call
broadcast_on_call_lem takes from t c all keys =
    let ids = others from c.sessions in
    let x = from_text from t in
    (
      record c { posted = c.posted ++ posts_of x ids },
      text_all_lem takes x ids c all,
      refl,
      λ j.
          let (none_of, one_of) = heard-posts_of j x ids in
          ground (
            arith,
            heard-append j c.posted (posts_of x ids),
            none_of,
            one_of,
            count-others j from c.sessions,
            keys j,
            contains_key-count c.sessions j,
          ),
    )
