-- ===== src/Chat/Lines.antt =====
-- What a session of examples/chat-server/src/main.rs reads in a text. A handler that panics gives
-- `none`.
use package.text.Mathlib.TextBridge.{of_list}
use package.text.Mathlib.Text.{◌==◌ as str_eq}
use Prim.Native.Char.{Char, code}
use ezsockets.Base.{
  Bool, List, Option, String, [], false, if◌then◌else◌, leb, none, some, ℕ, ◌&&◌, ◌==◌, ◌||◌, ◌∷◌,
}
use ezsockets.Chat.Chars.{chars}

-- `char::is_whitespace`, by the character's number.
is_whitespace : ℕ → Bool
is_whitespace n =
    leb 9 n && leb n 13
    || n == 32
    || n == 133
    || n == 160
    || n == 5760
    || leb 8192 n && leb n 8202
    || n == 8232
    || n == 8233
    || n == 8239
    || n == 8287
    || n == 12288

push_char : Char → List (List Char) → List (List Char)
push_char c [] = (c ∷ []) ∷ []
push_char c (word ∷ rest) = (c ∷ word) ∷ rest

-- The parts between whitespace, empty ones included.
parts : List Char → List (List Char)
unfolding push_char is_whitespace
parts [] = [] ∷ []
parts (c ∷ cs) =
    let rest = parts cs in if is_whitespace (code c) then [] ∷ rest else push_char c rest

nonempty : List (List Char) → List String
nonempty [] = []
nonempty ([] ∷ rest) = nonempty rest
nonempty ((c ∷ cs) ∷ rest) = of_list (c ∷ cs) ∷ nonempty rest

-- `split_whitespace`.
unfoldable pub split_whitespace : String → List String
unfolding parts nonempty
split_whitespace s = nonempty (parts (chars s))

-- What a text asks for.
pub data Line : Type 0 where
  joins : String → Line
  says : String → Line
  unrecognized : Line

-- `text.starts_with('/')`.
is_command : List Char → Bool
is_command [] = false
is_command (c ∷ cs) = code c == 47

-- The arguments of `/join`; `none` is the panic of `expect`.
join_line : List String → Option Line
join_line [] = none
join_line (room ∷ rest) = some (joins room)

-- The words of a command; `none` is the panic of `unwrap`.
command_line : List String → Option Line
unfolding join_line
command_line [] = none
command_line (command ∷ args) = if str_eq command "/join" then join_line args else some unrecognized

unfoldable pub parse_line : String → Option Line
unfolding is_command command_line split_whitespace
parse_line t = if is_command (chars t) then command_line (split_whitespace t) else some (says t)
