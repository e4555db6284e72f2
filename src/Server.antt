-- ===== src/Server.antt =====
-- src/server.rs: the loop of `ServerActor`. The extension is the user's. What the actor hands to other
-- tasks is kept in logs, oldest first; tracing is left out.
pub mod System
pub mod Invariant
pub mod Dispatch
pub mod Shutdown
pub mod Drain
pub mod Watching
pub mod Sessions
pub mod Keeping
pub mod Callers
pub mod Service
pub mod Refining
mod Examples
use ezsockets.Base.{
  Bool, List, Option, Result, [], err, if◌then◌else◌, none, ok, some, true, ℕ, ◌%◌, ◌&&◌, ◌++◌, ◌+◌,
  ◌-◌, ◌==◌, ◌^◌, ◌∷◌,
}
use ezsockets.Error.{Error}
use ezsockets.Session.{CloseResult}
use ezsockets.Socket.CloseCode.{CloseCode}
use ezsockets.Socket.Message.{CloseFrame}

-- A socket, an address and a request: their types are arguments.
pub record NewConnection (S D R : Type 0) : Type 0 where
  pub socket : S
  pub address : D
  pub request : R

-- `ServerExt`. A session that `on_connect` accepts is given by its id, which is all that the actor
-- reads of it.
pub record ServerExt (E I A S D R : Type 0) : Type 0 where
  pub on_connect : E → S → R → D → E × Result I (Option CloseFrame)
  pub on_disconnect : E → I → CloseResult → E × Result (Unit {0}) Error
  pub on_call : E → A → E × Result (Unit {0}) Error

-- What `select!` yields; an acknowledgement is the number of its oneshot channel.
pub data ServerEvent (I A S D R : Type 0) : Type 0 where
  shutdown : ℕ → ServerEvent I A S D R
  connected : NewConnection S D R → ServerEvent I A S D R
  disconnected : I → CloseResult → ServerEvent I A S D R
  called : A → ServerEvent I A S D R

pub record ServerState (E I S : Type 0) : Type 0 where
  pub extension : E
  pub active_sessions : ℕ  -- usize
  pub shutting_down : Bool
  pub shutdown_acks : List ℕ
  -- Whether `shutdown_signal.send(true)` was called.
  pub signalled : Bool
  -- The close messages sent to the sockets of refused connections.
  pub refused : List (S × Option CloseFrame)
  -- The sessions whose tasks were spawned, and those handed to `on_disconnect`.
  pub spawned : List I
  pub dispatched : List I
  -- The acknowledgements sent.
  pub acked : List ℕ

abbrev pub usize : ℕ → ℕ
usize n = n % 2 ^ 64

-- The close frame of a shutdown.
abbrev pub going_away : CloseFrame
going_away = record { code = CloseCode.away; reason = "server shutting down" }

-- The test at the loop's head.
unfoldable pub is_done : {E I S : Type 0} → ServerState E I S → Bool
is_done st = st.shutting_down && st.active_sessions == 0

-- What follows it: every acknowledgement is sent, and the loop is left.
unfoldable pub drain_acks : {E I S : Type 0} → ServerState E I S → ServerState E I S
drain_acks st = record st { acked = st.acked ++ st.shutdown_acks; shutdown_acks = [] }

module _ {E I A S D R : Type 0} (ext : ServerExt E I A S D R) where
  on_shutdown : ℕ → ServerState E I S → ServerState E I S
  on_shutdown ack st =
      let st' = record st { shutdown_acks = st.shutdown_acks ++ ack ∷ [] } in
      if st.shutting_down then st' else record st' { shutting_down = true; signalled = true }

  on_decision :
      S → E × Result I (Option CloseFrame) → ServerState E I S → ServerState E I S × Option I
  on_decision socket (extension, ok id) st = (
    record st {
      extension = extension;
      active_sessions = usize (st.active_sessions + 1);
      spawned = st.spawned ++ id ∷ [];
    },
    some id,
  )
  on_decision socket (extension, err f) st =
      (record st { extension = extension; refused = st.refused ++ (socket, f) ∷ [] }, none)

  on_connection : NewConnection S D R → ServerState E I S → ServerState E I S × Option I
  unfolding on_decision
  on_connection c st =
      if st.shutting_down
      then (record st { refused = st.refused ++ (c.socket, some going_away) ∷ [] }, none)
      else on_decision c.socket (ext.on_connect st.extension c.socket c.request c.address) st

  -- One `select!` of the loop, with the session that it spawns. The error of a handler is logged only.
  unfoldable pub server_step :
      ServerEvent I A S D R → ServerState E I S → ServerState E I S × Option I
  unfolding on_shutdown on_connection on_decision
  server_step (shutdown ack) st = (on_shutdown ack st, none)
  server_step (connected c) st = on_connection c st
  server_step (disconnected id result) st = (
    record st {
      active_sessions = st.active_sessions - 1;
      extension = (ext.on_disconnect st.extension id result).0;
      dispatched = st.dispatched ++ id ∷ [];
    },
    none,
  )
  server_step (called call) st = (record st { extension = (ext.on_call st.extension call).0 }, none)

-- One round of `watch_for_shutdown`: the value that `borrow` gives, and whether `changed` fails.
pub record WatchRound : Type 0 where
  pub value : Bool
  pub lost : Bool

-- `watch_for_shutdown` over the rounds so far: `none` while it waits, else the frame with which it
-- closes the session, if it does.
unfoldable pub watch_for_shutdown : List WatchRound → Option (Option CloseFrame)
watch_for_shutdown [] = none
watch_for_shutdown (r ∷ rs) =
    let rest = watch_for_shutdown rs in
    if r.value then some (some going_away) else if r.lost then some none else rest
