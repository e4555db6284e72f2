-- ===== src/Server/Sessions.antt =====
-- The task that src/server.rs spawns for an accepted session: it waits for the end of the session's
-- actor (src/session.rs) and tells the server's.

pub mod Telling
use ezsockets.Base.{Option, [], if◌then◌else◌, none, some, ◌++◌, ◌∷◌}
use ezsockets.Server.Drain.{then}
use ezsockets.Server.System.{System}
use ezsockets.Session.{CloseResult, Poll, pending, ready}
use ezsockets.Session.Closing.{ClosedIndicator, await_close}

module _ {E I A S D R : Type 0} where
  -- `Server::disconnected`.
  unfoldable pub server_disconnected : I → CloseResult → System E I A S D R → System E I A S D R
  server_disconnected id result s =
      if s.exited then s else record s { disconnections = s.disconnections ++ (id, result) ∷ [] }

  -- What follows `await_close`; after a panic the task is gone.
  tell_server : I → Option (Poll CloseResult) → System E I A S D R → System E I A S D R
  unfolding server_disconnected
  tell_server id none s = s
  tell_server id (some pending) s = s
  tell_server id (some (ready result)) s = server_disconnected id result s

  -- The task.
  unfoldable pub session_task :
      I → ClosedIndicator → System E I A S D R → ClosedIndicator × System E I A S D R
  unfolding tell_server
  session_task id indicator s = let (left, r) = await_close indicator in (left, tell_server id r s)
