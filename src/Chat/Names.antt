-- ===== src/Chat/Names.antt =====
-- The names of the rooms, and the ids that are free.
use package.text.Mathlib.Text.{◌==◌ as str_eq}
use ezsockets.Base.{
  Bool, Bool-cases, List, Option-cases, String, [], ap, arith, false, inl, inr, none, refl, some,
  suc, true, zero, ℕ, ◌++◌, ◌+◌, ◌<◌, ◌||◌, ◌∷◌, ◌≡◌, ◌≢◌, ◌≤◌,
}
use ezsockets.Chat.{Rooms, contains_key, find_id, join_room, push_room, take_out}

abbrev pub has_room : String → Rooms → Bool
has_room name [] = false
has_room name ((n, ids) ∷ rest) = str_eq n name || has_room name rest

pub push_room-some :
    (name : String) (id : ℕ) (rooms : Rooms)
    → has_room name rooms ≡ true
    → (rooms' : Rooms) × (push_room name id rooms ≡ some rooms')
unfolding push_room
push_room-some name id [] h = absurd (ground arith)
push_room-some name id ((n, ids) ∷ rest) h = elim (Bool-cases (str_eq n name)) [
  | inl found ↦ ((n, ids ++ id ∷ []) ∷ rest, ground arith)
  | inr missed ↦
      let (rest', e) = push_room-some name id rest (ground arith) in
      ((n, ids) ∷ rest', ground arith)
]

pub has_room-push_room :
    (m name : String) (id : ℕ) (rooms rooms' : Rooms)
    → push_room name id rooms ≡ some rooms'
    → has_room m rooms' ≡ has_room m rooms
unfolding push_room
has_room-push_room m name id [] rooms' h = absurd (ground arith)
has_room-push_room m name id ((n, ids) ∷ rest) rooms' h = elim (Bool-cases (str_eq n name)) [
  | inl found ↦ ground arith
  | inr missed ↦ elim (Option-cases (push_room name id rest)) [
    | inl e ↦ absurd (ground arith)
    | inr (rest', e) ↦ ground (arith, has_room-push_room m name id rest rest' e)
  ]
]

pub has_room-take_out :
    (m : String) (id : ℕ) (rooms rooms' : Rooms)
    → take_out id rooms ≡ some rooms'
    → has_room m rooms' ≡ has_room m rooms
unfolding take_out
has_room-take_out m id [] rooms' h = absurd (ground arith)
has_room-take_out m id ((n, ids) ∷ rest) rooms' h = elim (Bool-cases (contains_key ids id)) [
  | inl found ↦ ground arith
  | inr missed ↦ elim (Option-cases (take_out id rest)) [
    | inl e ↦ absurd (ground arith)
    | inr (rest', e) ↦ ground (arith, has_room-take_out m id rest rest' e)
  ]
]

has_room-append :
    (m : String) (xs ys : Rooms) → has_room m (xs ++ ys) ≡ has_room m xs || has_room m ys
has_room-append m [] ys = refl
has_room-append m (x ∷ xs) ys = ground (arith, has_room-append m xs ys)

pub has_room-join_room :
    (m name : String) (id : ℕ) (rooms : Rooms)
    → has_room m rooms ≡ true
    → has_room m (join_room name id rooms) ≡ true
unfolding join_room
has_room-join_room m name id rooms h = elim (Option-cases (push_room name id rooms)) [
  | inl e ↦ ground (arith, has_room-append m rooms ((name, id ∷ []) ∷ []))
  | inr (pushed, e) ↦ ground (arith, has_room-push_room m name id rooms pushed e)
]

pub find_id-free :
    (n i id : ℕ) (taken : List ℕ)
    → find_id n i taken ≡ some id
    → (contains_key taken id ≡ false) × (id < i + n)
unfolding find_id
find_id-free zero i id taken h = absurd (ground arith)
find_id-free (suc n) i id taken h = ground (arith, find_id-free n (i + 1) id taken)

pub find_id-some :
    (n i id : ℕ) (taken : List ℕ)
    → contains_key taken id ≡ false
    → i ≤ id
    → id < i + n
    → find_id n i taken ≢ none
unfolding find_id
find_id-some zero i id taken free lo hi = absurd (omega arith)
find_id-some (suc n) i id taken free lo hi = elim (Bool-cases (contains_key taken i)) [
  | inl used ↦ ground (arith, find_id-some n (i + 1) id taken free, ap (contains_key taken))
  | inr unused ↦ ground arith
]
