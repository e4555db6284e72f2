-- ===== src/Chat/Member/Joining.antt =====
-- What a session of the chat asks of the server.
use package.text.Mathlib.Text.{◌==◌ as str_eq}
use Prim.Native.Char.{Char, code}
use ezsockets.Base.{
  Bool, List, List-cases, Option, String, [], ap, append-nil, append_assoc, arith, false, inl, inr,
  none, refl, some, sym, true, ℕ, ◌++◌, ◌∙◌, ◌∷◌, ◌≡◌, ◌≢◌,
}
use ezsockets.Chat.{ChatMessage, chat_ext, join}
use ezsockets.Chat.Chars.{chars}
use ezsockets.Chat.Lines.{Line, joins, parse_line, says, split_whitespace, unrecognized}
use ezsockets.Chat.Member.{call_chat, on_line, Member, member_ext, member_on_text}
use ezsockets.Server.Drain.{then}
use ezsockets.Server.System.{Reach, Step, here}
use ezsockets.Session.{Branch, SessionState, session_run}
use ezsockets.Session.Handlers.{
  Request, closed_with, ending, requests, serve_all, session_run-serve_all,
}
use ezsockets.Session.Requests.{NoBinary, texts_of}
use ezsockets.Socket.Message.{Utf8Bytes}
use ezsockets.Socket.Signal.{InRawMessage, Signals}

-- The calls for the lines, from a room on.
abbrev pub calls_of_lines : (ℕ → Bool) → ℕ → String → List Line → List ((ℕ → Bool) × ChatMessage)
calls_of_lines takes id room [] = []
calls_of_lines takes id room (joins r ∷ ls) = (takes, join id r) ∷ calls_of_lines takes id r ls
calls_of_lines takes id room (says t ∷ ls) =
    (takes, ChatMessage.send id room t) ∷ calls_of_lines takes id room ls
calls_of_lines takes id room (unrecognized ∷ ls) = calls_of_lines takes id room ls

-- What a text of the chat means, by its first character and its words: a text that does not begin with
-- a slash is said; one that does and whose first two words are "/join" and a room asks for that room;
-- one that begins with a slash and has another first word asks for nothing. 47 is the slash.
pub data Means (t : Utf8Bytes) : Line → Type 0 where
  plain_text : ((c : Char) (cs : List Char) → chars t ≡ c ∷ cs → code c ≢ 47) → Means t (says t)
  join_command :
      (c : Char) (cs : List Char) (room : String) (more : List String)
      → chars t ≡ c ∷ cs
      → code c ≡ 47
      → split_whitespace t ≡ "/join" ∷ room ∷ more
      → Means t (joins room)
  other_command :
      (c : Char) (cs : List Char) (command : String) (args : List String)
      → chars t ≡ c ∷ cs
      → code c ≡ 47
      → split_whitespace t ≡ command ∷ args
      → str_eq command "/join" ≡ false
      → Means t unrecognized

parse_line-Means : (t : Utf8Bytes) (l : Line) → Means t l → parse_line t ≡ some l
unfolding parse_line
parse_line-Means t l (join_command c cs room more e s w) = ground (arith, e, s, w)
parse_line-Means t l (other_command c cs command args e s w n) = ground (arith, e, s, w, n)
parse_line-Means t l (plain_text p) = elim (List-cases (chars t)) [
  | inl e ↦ ground (arith, e)
  | inr (c, cs, e) ↦ ground (arith, e, p c cs e)
]

-- The texts mean these lines.
abbrev pub Reads : List Utf8Bytes → List Line → Type 0
Reads [] [] = Unit {0}
Reads [] (l ∷ ls) = ⊥
Reads (t ∷ ts) [] = ⊥
Reads (t ∷ ts) (l ∷ ls) = Means t l × Reads ts ls

module _ {S D R : Type 0} (takes : ℕ → Bool) (id : ℕ) where
  called_member :
      (call : ChatMessage) (m : Member S D R)
      → m.server.exited ≡ false
      → call_chat takes id call m
        ≡ some (record m {
          server = record (m.server) { calls = m.server.calls ++ (takes, call) ∷ [] };
        })
  unfolding call_chat
  called_member call m x = rw x

  heard_line :
      (t : Utf8Bytes) (l : Line) (m : Member S D R)
      → parse_line t ≡ some l
      → (member_on_text takes id t (some m)).0 ≡ on_line takes id (some l) m
  unfolding member_on_text
  heard_line t l m p = ap (λ o. on_line takes id o m) p

  module _ {C : Type 0} (channel_send : C → InRawMessage → C × Option InRawMessage) where
    -- The session serves the requests, and its server has these calls then.
    abbrev Queues :
        List (Request (Unit {0})) → Member S D R → List ((ℕ → Bool) × ChatMessage) → Type 0
    Queues rs m calls =
        (m' : Member S D R) × (serve_all (member_ext takes id true) channel_send rs (some m)
          ≡ (some m', none))
        × (m'.server.calls ≡ calls)
        × Reach chat_ext m.server m'.server

    asks_one :
        (t : Utf8Bytes) (rs : List (Request (Unit {0}))) (call : ChatMessage) (m m1 : Member S D R)
        (later : List ((ℕ → Bool) × ChatMessage))
        → m.server.exited ≡ false
        → m1.server ≡ record (m.server) { calls = m.server.calls ++ (takes, call) ∷ [] }
        → (member_on_text takes id t (some m)).0 ≡ some m1
        → Queues rs m1 (m1.server.calls ++ later)
        → Queues (Request.text t ∷ rs) m (m.server.calls ++ (takes, call) ∷ later)
    unfolding member_on_text
    asks_one t rs call m m1 later x e run (m', ran, calls, r) = (
      m',
      ap (λ o. serve_all (member_ext takes id true) channel_send rs o) run ∙ ran,
      ground (arith, calls, e, append_assoc m.server.calls ((takes, call) ∷ []) later),
      (then) chat_ext (Step.call (takes, call) x e) r,
    )

    member_serves :
        (rs : List (Request (Unit {0}))) (ls : List Line) (m : Member S D R)
        → m.server.exited ≡ false
        → NoBinary rs
        → Reads (texts_of rs) ls
        → Queues rs m (m.server.calls ++ calls_of_lines takes id m.room ls)
    unfolding on_line member_on_text
    member_serves [] [] m x nb reads = (m, refl, sym (append-nil m.server.calls), here)
    member_serves (Request.call a ∷ rs) ls m x nb reads = member_serves rs ls m x nb reads
    member_serves (Request.text t ∷ rs) (joins r ∷ ls) m x nb reads =
        let m1 = record m {
          room = r;
          server = record (m.server) { calls = m.server.calls ++ (takes, join id r) ∷ [] };
        } in
        asks_one t rs (join id r) m m1 (calls_of_lines takes id r ls) x refl
          (heard_line t (joins r) m (parse_line-Means t (joins r) reads.0)
            ∙ called_member (join id r) (record m { room = r }) x)
          (member_serves rs ls m1 x nb reads.1)
    member_serves (Request.text t ∷ rs) (says w ∷ ls) m x nb reads =
        let call = ChatMessage.send id m.room w in
        let m1 = record m {
          server = record (m.server) { calls = m.server.calls ++ (takes, call) ∷ [] };
        } in
        asks_one t rs call m m1 (calls_of_lines takes id m.room ls) x refl
          (heard_line t (says w) m (parse_line-Means t (says w) reads.0) ∙ called_member call m x)
          (member_serves rs ls m1 x nb reads.1)
    member_serves (Request.text t ∷ rs) (unrecognized ∷ ls) m x nb reads =
        let (m', ran, calls, r) = member_serves rs ls m x nb reads.1 in
        (
          m',
          ap (λ o. serve_all (member_ext takes id true) channel_send rs o)
                (heard_line t unrecognized m (parse_line-Means t unrecognized reads.0))
              ∙ ran,
          calls,
          r,
        )
    member_serves (Request.text t ∷ rs) [] m x nb reads = absurd reads
    member_serves (Request.binary bytes ∷ rs) ls m x nb reads = absurd nb
    member_serves [] (l ∷ ls) m x nb reads = absurd reads

    -- What a member of the chat types is what its session asks of the server. Run a session by the
    -- library's loop, with a sink that takes every message, over rounds in which it hears no binary
    -- message and texts of three kinds, while the server's actor is there: texts that do not begin with
    -- a slash, those that do and whose first words are "/join" and a room, and those that begin with a
    -- slash and another word. Then no handler panics or fails, and by steps of the server its queue
    -- gets, last and in order, a `Join` for each of the second kind, a `Send` of each of the first to
    -- the room that was joined last, and nothing for the third kind.
    pub session_run-calls_of_lines :
        (bs : List (Branch (Unit {0}))) (ls : List Line) (m : Member S D R) (channel : C)
        (signals : Signals)
        → ((c : C) (x : InRawMessage) → (channel_send c x).1 ≡ none)
        → m.server.exited ≡ false
        → NoBinary (requests bs)
        → Reads (texts_of (requests bs)) ls
        → let st : SessionState (Option (Member S D R)) C = record {
          extension = some m;
          channel = channel;
          signals = signals;
        } in
          let (st', r) = session_run (member_ext takes id true) channel_send bs st in
          (m' : Member S D R) × (st'.extension ≡ some m')
          × (r
              ≡ ending
                  (member_ext {S = S} {D = D} {R = R} takes id true)
                  channel_send
                  none
                  (closed_with bs))
          × (m'.server.calls ≡ m.server.calls ++ calls_of_lines takes id m.room ls)
          × Reach chat_ext m.server m'.server
    session_run-calls_of_lines bs ls m channel signals accepts x nb reads =
        let st : SessionState (Option (Member S D R)) C = record {
          extension = some m;
          channel = channel;
          signals = signals;
        } in
        let (m', run, calls, r) = member_serves (requests bs) ls m x nb reads in
        let (e, res) =
          session_run-serve_all (member_ext takes id true) channel_send bs st accepts in
        (m', ground (arith, e, run), ground (arith, res, run), calls, r)
