-- ===== src/Counter.antt =====
-- examples/counter-server/src/main.rs: a session that counts, and shares the count with its client. What
-- its handle posts is kept in a log, oldest first; a handler that panics gives `none`.
pub mod Counting
mod Examples
use ezsockets.Base.{
  Bool, List, Option, Result, [], if◌then◌else◌, none, ok, some, suc, zero, ℕ, ◌++◌, ◌+◌, ◌∷◌,
}
use ezsockets.Chat.{on_call}
use ezsockets.Error.{Error}
use ezsockets.Server.{usize}
use ezsockets.Server.Drain.{then}
use ezsockets.Session.{SessionExt}
use ezsockets.Socket.Message.{Utf8Bytes}

-- `Message`.
pub data CounterMessage : Type 0 where
  increment share : CounterMessage

-- A text that the session posts: the one that it heard, or `format!("counter: {}", n)`.
pub data CounterText : Type 0 where
  echoed : Utf8Bytes → CounterText
  counter_is : ℕ → CounterText

pub record CounterSession : Type 0 where
  pub counter : ℕ  -- usize
  pub posted : List CounterText

-- What `Session::create` makes of it.
abbrev pub new_counter : CounterSession
new_counter = record { counter = 0; posted = [] }

-- `self.handle.text(…).unwrap()`: `takes` tells whether the session's channel is there.
post_text : Bool → CounterText → Option CounterSession → Option CounterSession
post_text takes t none = none
post_text takes t (some c) = if takes then some (record c { posted = c.posted ++ t ∷ [] }) else none

-- `self.counter += 1`, in a release build.
count_up : Option CounterSession → Option CounterSession
count_up none = none
count_up (some c) = some (record c { counter = usize (c.counter + 1) })

share_count : Bool → Option CounterSession → Option CounterSession
unfolding post_text
share_count takes none = none
share_count takes (some c) = post_text takes (counter_is c.counter) (some c)

-- `CounterSession::on_call`.
unfoldable pub counter_on_call :
    Bool → CounterMessage → Option CounterSession → Option CounterSession × Result (Unit {0}) Error
unfolding count_up share_count post_text
counter_on_call takes increment c = (count_up c, ok tt)
counter_on_call takes share c = (share_count takes c, ok tt)

-- `CounterSession::on_text`.
unfoldable pub counter_on_text :
    Bool → Utf8Bytes → Option CounterSession → Option CounterSession × Result (Unit {0}) Error
unfolding post_text
counter_on_text takes t c = (post_text takes (echoed t) c, ok tt)

-- The session as an extension of the library's; `on_binary` is `unimplemented!()`.
abbrev pub counter_ext : Bool → SessionExt (Option CounterSession) CounterMessage
counter_ext takes = record {
  on_text = λ c t. counter_on_text takes t c;
  on_binary = λ c bytes. (none, ok tt);
  on_call = λ c call. counter_on_call takes call c;
}

-- The calls of the counting task after `n` rounds of its loop.
unfoldable pub counting_task : ℕ → List CounterMessage
counting_task zero = []
counting_task (suc n) = increment ∷ share ∷ counting_task n
