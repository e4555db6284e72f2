-- ===== src/Chat/Rooms.antt =====
-- What the operations on rooms do to the sessions in them.
use package.text.Mathlib.Text.{◌==◌ as str_eq}
use ezsockets.Base.{
  Bool-cases, List, Option-cases, String, [], arith, if◌then◌else◌, inl, inr, none, refl, some,
  true, ℕ, ◌++◌, ◌+◌, ◌-◌, ◌<◌, ◌==◌, ◌↔◌, ◌∷◌, ◌≡◌,
}
use ezsockets.Chat.{Rooms, contains_key, join_room, push_room, remove_first, take_out}

abbrev pub count : ℕ → List ℕ → ℕ
count id [] = 0
count id (x ∷ xs) = (if x == id then 1 else 0) + count id xs

-- How often an id stands in the rooms.
abbrev pub count_rooms : ℕ → Rooms → ℕ
count_rooms id [] = 0
count_rooms id ((n, ids) ∷ rest) = count id ids + count_rooms id rest

pub count-append : (id : ℕ) (xs ys : List ℕ) → count id (xs ++ ys) ≡ count id xs + count id ys
count-append id [] ys = omega arith
count-append id (x ∷ xs) ys = omega (arith, count-append id xs ys)

pub contains_key-count : (xs : List ℕ) (id : ℕ) → (contains_key xs id ≡ true) ↔ (0 < count id xs)
unfolding contains_key
contains_key-count [] id = ground arith
contains_key-count (x ∷ xs) id = ground (arith, contains_key-count xs id)

pub count-remove_first :
    (j id : ℕ) (xs : List ℕ)
    → count j (remove_first id xs) ≡ (if j == id then count j xs - 1 else count j xs)
unfolding remove_first
count-remove_first j id [] = ground arith
count-remove_first j id (x ∷ xs) = ground (arith, count-remove_first j id xs)

pub count-take_out :
    (j id : ℕ) (rooms rooms' : Rooms)
    → take_out id rooms ≡ some rooms'
    → count_rooms j rooms ≡ count_rooms j rooms' + (if j == id then 1 else 0)
unfolding take_out
count-take_out j id [] rooms' h = absurd (ground arith)
count-take_out j id ((n, ids) ∷ rest) rooms' h = elim (Bool-cases (contains_key ids id)) [
  | inl found ↦ ground (arith, count-remove_first j id ids, contains_key-count ids id)
  | inr missed ↦ elim (Option-cases (take_out id rest)) [
    | inl e ↦ absurd (ground arith)
    | inr (rest', e) ↦ ground (arith, count-take_out j id rest rest' e)
  ]
]

pub take_out-some :
    (id : ℕ) (rooms : Rooms)
    → 0 < count_rooms id rooms
    → (rooms' : Rooms) × (take_out id rooms ≡ some rooms')
unfolding take_out
take_out-some id [] h = absurd (omega arith)
take_out-some id ((n, ids) ∷ rest) h = elim (Bool-cases (contains_key ids id)) [
  | inl found ↦ ((n, remove_first id ids) ∷ rest, ground arith)
  | inr missed ↦
      let (rest', e) = take_out-some id rest (ground (arith, contains_key-count ids id)) in
      ((n, ids) ∷ rest', ground arith)
]

pub take_out-none : (id : ℕ) (rooms : Rooms) → count_rooms id rooms ≡ 0 → take_out id rooms ≡ none
unfolding take_out
take_out-none id [] h = refl
take_out-none id ((n, ids) ∷ rest) h =
    ground (arith, contains_key-count ids id, take_out-none id rest (omega arith))

pub count-push_room :
    (j id : ℕ) (name : String) (rooms rooms' : Rooms)
    → push_room name id rooms ≡ some rooms'
    → count_rooms j rooms' ≡ count_rooms j rooms + (if j == id then 1 else 0)
unfolding push_room
count-push_room j id name [] rooms' h = absurd (ground arith)
count-push_room j id name ((n, ids) ∷ rest) rooms' h = elim (Bool-cases (str_eq n name)) [
  | inl found ↦ ground (arith, count-append j ids (id ∷ []))
  | inr missed ↦ elim (Option-cases (push_room name id rest)) [
    | inl e ↦ absurd (ground arith)
    | inr (rest', e) ↦ ground (arith, count-push_room j id name rest rest' e)
  ]
]

count_rooms-append :
    (j : ℕ) (xs ys : Rooms) → count_rooms j (xs ++ ys) ≡ count_rooms j xs + count_rooms j ys
count_rooms-append j [] ys = omega arith
count_rooms-append j (x ∷ xs) ys = omega (arith, count_rooms-append j xs ys)

pub count-join_room :
    (j id : ℕ) (name : String) (rooms : Rooms)
    → count_rooms j (join_room name id rooms) ≡ count_rooms j rooms + (if j == id then 1 else 0)
unfolding join_room
count-join_room j id name rooms = elim (Option-cases (push_room name id rooms)) [
  | inl e ↦ ground (arith, count_rooms-append j rooms ((name, id ∷ []) ∷ []))
  | inr (pushed, e) ↦ ground (arith, count-push_room j id name rooms pushed e)
]
