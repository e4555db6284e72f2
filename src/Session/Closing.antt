-- ===== src/Session/Closing.antt =====
-- How a session's handle (src/session.rs) learns of its end: the task that `Session::create` spawns, and
-- `await_close`.
use ezsockets.Base.{List, Option, arith, err, none, some, ◌≡◌}
use ezsockets.Error.{Error}
use ezsockets.Session.{
  Branch, CloseResult, Poll, SessionExt, SessionState, pending, ready, session_run,
}
use ezsockets.Session.Handlers.{closed_with, ending, requests, serve_all, session_run-serve_all}
use ezsockets.Socket.Signal.{InRawMessage}

-- `closed_indicator`, which the clones of a handle share: once it is taken it is `none`. The future of
-- its receiver yields the result, or nothing if the sender is gone.
abbrev pub ClosedIndicator : Type 0
ClosedIndicator = Option (Poll (Option CloseResult))

-- `unwrap_or(Err("session actor crashed".into()))`.
unwrap_or_crashed : Poll (Option CloseResult) → Poll CloseResult
unwrap_or_crashed pending = pending
unwrap_or_crashed (ready none) = ready (err (Error.text "session actor crashed"))
unwrap_or_crashed (ready (some result)) = ready result

-- `Session::await_close`; `none` is the panic of `expect`.
unfoldable pub await_close : ClosedIndicator → ClosedIndicator × Option (Poll CloseResult)
unfolding unwrap_or_crashed
await_close none = (none, none)
await_close (some receiver) = (none, some (unwrap_or_crashed receiver))

-- `closed_sender.send(result)`, once `run` has returned.
closed_receiver : Option CloseResult → Poll (Option CloseResult)
closed_receiver none = pending
closed_receiver (some result) = ready (some result)

module _ {E A C : Type 0} (ext : SessionExt E A)
    (channel_send : C → InRawMessage → C × Option InRawMessage) where
  -- The task that `Session::create` spawns, over the rounds so far, with the indicator of the handle.
  unfoldable pub create_task :
      List (Branch A) → SessionState E C → SessionState E C × ClosedIndicator
  unfolding closed_receiver
  create_task bs st =
      let (st', r) = session_run ext channel_send bs st in (st', some (closed_receiver r))

  -- The first call of `await_close` gets what the session ended with, and waits while it runs.
  pub await_close-create_task :
      (bs : List (Branch A)) (st : SessionState E C)
      → ((c : C) (m : InRawMessage) → (channel_send c m).1 ≡ none)
      → let (indicator, r) = await_close (create_task bs st).1 in
        let (e, failure) = serve_all ext channel_send (requests bs) st.extension in
        (indicator ≡ none)
        × (r
            ≡ some (elim (ending ext channel_send failure (closed_with bs)) [
              | some result ↦ ready result
              | none ↦ pending
            ]))
  unfolding await_close create_task
  await_close-create_task bs st takes =
      ground (arith, session_run-serve_all ext channel_send bs st takes)
