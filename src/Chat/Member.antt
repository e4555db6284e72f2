-- ===== src/Chat/Member.antt =====
-- The sessions of examples/chat-server/src/main.rs, as extensions of the library's, over the server to
-- which they talk. A handler that panics gives `none`.
pub mod Joining
mod Examples
use package.text.Mathlib.Text.{◌==◌ as str_eq}
use ezsockets.Base.{
  Bool, Option, Result, String, [], err, false, if◌then◌else◌, none, ok, some, true, ℕ, ◌++◌, ◌+◌,
  ◌==◌, ◌∷◌,
}
use ezsockets.Chat.{ChatMessage, join, on_call}
use ezsockets.Chat.Lines.{Line, joins, parse_line, says, unrecognized}
use ezsockets.Chat.Sending.{posts}
use ezsockets.Chat.Serving.{ChatSystem}
use ezsockets.Error.{Error}
use ezsockets.Server.Drain.{then}
use ezsockets.Session.{SessionExt}
use ezsockets.Socket.Message.{Bytes, Utf8Bytes}

-- `SessionActor`: its room, how many pongs its handle posted, and the server.
pub record Member (S D R : Type 0) : Type 0 where
  pub room : String
  pub ponged : ℕ
  pub server : ChatSystem S D R

module _ {S D R : Type 0} (takes : ℕ → Bool) (id : ℕ) where
  -- `self.server.call(…).unwrap()`.
  call_chat : ChatMessage → Member S D R → Option (Member S D R)
  call_chat call m =
      if m.server.exited
      then none
      else some
          (record m { server = record (m.server) { calls = m.server.calls ++ (takes, call) ∷ [] } })

  on_line : Option Line → Member S D R → Option (Member S D R)
  unfolding call_chat
  on_line none m = none
  on_line (some (joins room)) m = call_chat (join id room) (record m { room = room })
  on_line (some (says t)) m = call_chat (ChatMessage.send id m.room t) m
  on_line (some unrecognized) m = some m

  member_text : String → Option (Member S D R) → Option (Member S D R)
  unfolding on_line
  member_text t none = none
  member_text t (some m) = on_line (parse_line t) m

  -- `self.session.binary("pong")?`: `SendError` is a failure of the handler.
  member_binary : Bool → Option (Member S D R) → Option (Member S D R) × Result (Unit {0}) Error
  member_binary posts none = (none, ok tt)
  member_binary true (some m) = (some (record m { ponged = m.ponged + 1 }), ok tt)
  member_binary false (some m) = (some m, err (Error.handler 0))

  -- `SessionExt` of the sessions; `posts` tells whether its own channel is there.
  unfoldable pub member_on_text :
      Utf8Bytes → Option (Member S D R) → Option (Member S D R) × Result (Unit {0}) Error
  unfolding member_text
  member_on_text t m = (member_text t m, ok tt)

  unfoldable pub member_on_binary :
      Bool → Bytes → Option (Member S D R) → Option (Member S D R) × Result (Unit {0}) Error
  unfolding member_binary
  member_on_binary posts bytes m = member_binary posts m

  abbrev pub member_ext : Bool → SessionExt (Option (Member S D R)) (Unit {0})
  member_ext posts = record {
    on_text = λ m t. member_on_text t m;
    on_binary = λ m bytes. member_on_binary posts bytes m;
    on_call = λ m call. (m, ok tt);
  }
