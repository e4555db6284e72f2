-- ===== src/Chat/Member/Examples.antt =====
-- A member of the chat says something, moves, asks for nothing, and says something there.
use Prim.Native.Char.{Char, code}
use ezsockets.Base.{
  Bool, List, Option, [], ap, arith, none, ok, refl, some, true, ℕ, ◌+◌, ◌∙◌, ◌∷◌, ◌≡◌, ◌≢◌,
}
use ezsockets.Chat.{ChatMessage, chat_ext, default_room, empty_chat, join}
use ezsockets.Chat.Chars.{chars}
use ezsockets.Chat.Lines.{Line, joins, says, split_whitespace, unrecognized}
use ezsockets.Chat.Member.{Member, member_ext}
use ezsockets.Chat.Member.Joining.{
  join_command, other_command, plain_text, session_run-calls_of_lines,
}
use ezsockets.Server.System.{Reach, start}
use ezsockets.Session.{Branch, SessionState, session_run}
use ezsockets.Socket.Message.{Message}
use ezsockets.Socket.Signal.{InRawMessage, Signals}

abbrev everybody : ℕ → Bool
everybody id = true

abbrev takes_all : ℕ → InRawMessage → ℕ × Option InRawMessage
takes_all c m = (c + 1, none)

abbrev no_signals : Signals
no_signals = record { allocated = 0; cell = λ i. 0 }

abbrev began : Member ℕ ℕ ℕ
began = record { room = default_room; ponged = 0; server = start chat_ext (some empty_chat) }

abbrev typed : List (Branch (Unit {0}))
typed =
    Branch.incoming (some (ok (Message.text "hello all")))
    ∷ Branch.incoming (some (ok (Message.text "/join  kitchen now")))
    ∷ Branch.incoming (some (ok (Message.text "/who")))
    ∷ Branch.incoming (some (ok (Message.text "hi")))
    ∷ Branch.incoming none
    ∷ []

abbrev lines : List Line
lines = says "hello all" ∷ joins "kitchen" ∷ unrecognized ∷ says "hi" ∷ []

abbrev first_code : List Char → ℕ
first_code [] = 0
first_code (c ∷ cs) = code c

not_a_slash : {n : ℕ} (k : ℕ) → k ≡ n → k ≢ 47 → n ≢ 47
not_a_slash k e h = λ q. h (e ∙ q)

session_run-calls_of_lines_example :
    let st : SessionState (Option (Member ℕ ℕ ℕ)) ℕ = record {
      extension = some began;
      channel = 0;
      signals = no_signals;
    } in
    let (st', r) = session_run (member_ext everybody 7 true) takes_all typed st in
    (m' : Member ℕ ℕ ℕ) × (st'.extension ≡ some m')
    × (r ≡ some (ok none))
    × (m'.server.calls
        ≡ (everybody, ChatMessage.send 7 default_room "hello all")
          ∷ (everybody, join 7 "kitchen")
          ∷ (everybody, ChatMessage.send 7 "kitchen" "hi")
          ∷ [])
    × Reach chat_ext began.server m'.server
unfolding split_whitespace chars
session_run-calls_of_lines_example =
    session_run-calls_of_lines everybody 7 takes_all typed lines began 0 no_signals (λ c m. refl)
      refl tt
      (
        plain_text (λ c cs e. not_a_slash 104 (ap first_code e) (omega arith)),
        (
          join_command _ _ "kitchen" ("now" ∷ []) refl refl refl,
          (
            other_command _ _ "/who" [] refl refl refl refl,
            (plain_text (λ c cs e. not_a_slash 104 (ap first_code e) (omega arith)), tt),
          ),
        ),
      )
