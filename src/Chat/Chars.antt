-- ===== src/Chat/Chars.antt =====
-- The characters of a text, as examples/chat-server/src/main.rs goes through them.
use Prim.Native.Char.{Char}
use Prim.Native.String.{String, [], ◌∷◌}
use mathlib.Core.List.{List, [] as no_chars, ◌∷◌ as ◌then_chars◌}

-- `str::chars`.
unfoldable pub chars : String → List Char
chars [] = no_chars
chars (c ∷ s) = c then_chars (chars s)
