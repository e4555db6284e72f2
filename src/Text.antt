-- ===== src/Text.antt =====
-- What src/server_runners/axum_tungstenite.rs uses of the standard library's byte strings and texts.
-- A text is the list of its bytes.
pub mod Laws
use ezsockets.Base.{
  Bool, List, Option, [], false, if◌then◌else◌, in_range, none, some, suc, true, zero, ℕ, ◌&&◌, ◌+◌,
  ◌==◌, ◌||◌, ◌∷◌,
}
use ezsockets.Socket.Message.{Bytes}

-- `==` on byte strings.
unfoldable pub bytes_eq : Bytes → Bytes → Bool
bytes_eq [] [] = true
bytes_eq (x ∷ xs) (y ∷ ys) = x == y && bytes_eq xs ys
bytes_eq _ _ = false

-- `u8::to_ascii_lowercase`, and the same on a text.
unfoldable pub to_lower : ℕ → ℕ
to_lower b = if in_range 65 90 b then b + 32 else b

unfoldable pub to_ascii_lowercase : Bytes → Bytes
to_ascii_lowercase [] = []
to_ascii_lowercase (b ∷ bs) = to_lower b ∷ to_ascii_lowercase bs

-- `[u8]::eq_ignore_ascii_case`.
unfoldable pub eq_ignore_ascii_case : Bytes → Bytes → Bool
eq_ignore_ascii_case [] [] = true
eq_ignore_ascii_case (x ∷ xs) (y ∷ ys) = to_lower x == to_lower y && eq_ignore_ascii_case xs ys
eq_ignore_ascii_case _ _ = false

-- `str::starts_with` and `str::contains`, the text first.
unfoldable pub starts_with : Bytes → Bytes → Bool
starts_with xs [] = true
starts_with [] (y ∷ ys) = false
starts_with (x ∷ xs) (y ∷ ys) = x == y && starts_with xs ys

unfoldable pub contains : Bytes → Bytes → Bool
contains [] ys = starts_with [] ys
contains (x ∷ xs) ys = starts_with (x ∷ xs) ys || contains xs ys

-- The first byte of an encoded character: how many follow, and the range of the next.
lead : ℕ → Option (ℕ × ℕ × ℕ)
lead b =
    if in_range 0 127 b
    then some (0, 0, 0)
    else if in_range 194 223 b
    then some (1, 128, 191)
    else if b == 224
    then some (2, 160, 191)
    else if b == 237
    then some (2, 128, 159)
    else if in_range 225 239 b
    then some (2, 128, 191)
    else if b == 240
    then some (3, 144, 191)
    else if in_range 241 243 b
    then some (3, 128, 191)
    else if b == 244
    then some (3, 128, 143)
    else none

-- The rest of a text of which `n` bytes are due, the next between `lo` and `hi`.
utf8_from : ℕ → ℕ → ℕ → Bytes → Bool
utf8_from zero lo hi [] = true
utf8_from (suc n) lo hi [] = false
utf8_from zero lo hi (b ∷ bs) = elim (lead b) [
  | none ↦ false
  | some (n, lo', hi') ↦ utf8_from n lo' hi' bs
]
utf8_from (suc n) lo hi (b ∷ bs) = in_range lo hi b && utf8_from n 128 191 bs

-- Whether `str::from_utf8` returns `Ok`.
unfoldable pub is_utf8 : Bytes → Bool
unfolding utf8_from lead
is_utf8 bs = utf8_from 0 0 0 bs

push_head : ℕ → List Bytes → List Bytes
push_head b [] = (b ∷ []) ∷ []
push_head b (piece ∷ pieces) = (b ∷ piece) ∷ pieces

-- `str::split` at a byte.
unfoldable pub split : ℕ → Bytes → List Bytes
unfolding push_head
split sep [] = [] ∷ []
split sep (b ∷ bs) = let rest = split sep bs in if b == sep then [] ∷ rest else push_head b rest

-- The white space of ASCII, which is all that a header's text can hold.
abbrev is_space : ℕ → Bool
is_space b = in_range 9 13 b || b == 32

trim_start : Bytes → Bytes
trim_start [] = []
trim_start (b ∷ bs) = let rest = trim_start bs in if is_space b then rest else b ∷ bs

abbrev is_empty : Bytes → Bool
is_empty [] = true
is_empty (b ∷ bs) = false

trim_end : Bytes → Bytes
trim_end [] = []
trim_end (b ∷ bs) = let rest = trim_end bs in if is_space b && is_empty rest then [] else b ∷ rest

-- `str::trim`.
unfoldable pub trim : Bytes → Bytes
unfolding trim_start trim_end
trim bs = trim_end (trim_start bs)
