-- ===== src/Typing.antt =====
-- examples/simple-client/src/main.rs: a client that sends the lines that its user types. What its handle
-- posts is kept in a log, oldest first; a handler that panics gives `none`.
pub mod Exiting
mod Examples
use package.text.Mathlib.Text.{◌==◌ as str_eq}
use ezsockets.Base.{
  Bool, List, Option, Result, [], false, if◌then◌else◌, none, ok, some, true, ◌++◌, ◌==◌, ◌∷◌,
}
use ezsockets.Chat.{on_call, on_connect, on_disconnect}
use ezsockets.Client.{
  ClientExt, default_on_close, default_on_connect, default_on_connect_fail, default_on_disconnect,
}
use ezsockets.Error.{Error}
use ezsockets.Server.Drain.{then}
use ezsockets.Socket.CloseCode.{CloseCode}
use ezsockets.Socket.Message.{CloseFrame, Message, Utf8Bytes}

-- The frame of the good-bye.
abbrev pub adios : CloseFrame
adios = record { code = CloseCode.normal; reason = "adios!" }

-- What the handle is asked to post for a line.
unfoldable pub line_message : Utf8Bytes → Message
line_message line = if str_eq line "exit" then Message.close (some adios) else Message.text line

-- `handle.close(…).unwrap()` and `handle.text(…).unwrap()`: `takes` tells whether the client's channel is there.
post_line : Bool → Message → Option (List Message) → Option (List Message)
post_line takes m none = none
post_line true m (some posted) = some (posted ++ m ∷ [])
post_line false m (some posted) = none

-- `Client::on_call` at `Call::NewLine(line)`.
unfoldable pub line_on_call :
    Bool → Utf8Bytes → Option (List Message) → Option (List Message) × Result (Unit {0}) Error
unfolding post_line line_message
line_on_call takes line posted = (post_line takes (line_message line) posted, ok tt)

-- The client as an extension of the library's: it only prints what comes in.
abbrev pub typing_ext : Bool → ClientExt (Option (List Message)) Utf8Bytes
typing_ext takes = record {
  on_text = λ posted t. (posted, ok tt);
  on_binary = λ posted bytes. (posted, ok tt);
  on_call = λ posted line. line_on_call takes line posted;
  on_connect = default_on_connect;
  on_connect_fail = default_on_connect_fail;
  on_close = default_on_close;
  on_disconnect = default_on_disconnect;
}
