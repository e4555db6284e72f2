-- ===== src/Server/Sessions/Telling.antt =====
-- What a session ends with reaches the extension of src/server.rs.
use ezsockets.Base.{
  Bool-cases, List, Option, [], append-nil, append_assoc, arith, false, inl, inr, length-append,
  map, none, refl, some, subst, sym, ◌++◌, ◌∙◌, ◌∷◌, ◌≡◌,
}
use ezsockets.Server.{ServerExt, disconnected, is_done, server_step}
use ezsockets.Server.Drain.{then}
use ezsockets.Server.Invariant.{Inv, Reach-Inv, Step-Inv}
use ezsockets.Server.Sessions.{server_disconnected, session_task}
use ezsockets.Server.System.{
  IsRunning, Reach, Step, System, here, round, session_ends, start, take_disconnected,
}
use ezsockets.Session.{Branch, CloseResult, SessionExt, SessionState, ready}
use ezsockets.Session.Closing.{ClosedIndicator, await_close, await_close-create_task, create_task}
use ezsockets.Session.Handlers.{closed_with, ending, requests, serve_all}
use ezsockets.Socket.Signal.{InRawMessage}

module _ {E I A S D R : Type 0} (ext : ServerExt E I A S D R) where
  -- `on_disconnect` for each of them, in turn.
  abbrev pub on_disconnects : List (I × CloseResult) → E → E
  on_disconnects [] e = e
  on_disconnects ((id, result) ∷ queue) e = on_disconnects queue (ext.on_disconnect e id result).0

  -- The actor can go on to call `on_disconnect` for all of the queue, and then nothing is left.
  abbrev pub DispatchesAll :
      List (I × CloseResult) → System E I A S D R → System E I A S D R → Type 0
  DispatchesAll queue s s' =
      (t : System E I A S D R) × Reach ext s' t
      × (t.disconnections ≡ [])
      × (t.actor.extension ≡ on_disconnects queue s.actor.extension)
      × (t.actor.dispatched ≡ s.actor.dispatched ++ map (λ d. d.0) queue)

  dispatch_all :
      (queue : List (I × CloseResult)) (s : System E I A S D R)
      → s.disconnections ≡ queue
      → s.exited ≡ false
      → Inv s
      → DispatchesAll queue s s
  unfolding is_done server_step
  dispatch_all [] s q x v = (s, here, q, refl, sym (append-nil s.actor.dispatched))
  dispatch_all ((id, result) ∷ queue) s q x v =
      let running : IsRunning s = record { not_exited = x; not_done = ground (arith, v.counted) } in
      let s' = round ext (disconnected id result) (record s { disconnections = queue }) in
      let taken : Step ext s s' = take_disconnected id result queue running q refl in
      let (t, r, d, e, l) = dispatch_all queue s' refl x (Step-Inv ext taken v) in
      (
        t,
        then ext taken r,
        d,
        e,
        l ∙ append_assoc s.actor.dispatched (id ∷ []) (map (λ p. p.0) queue),
      )

  -- A server with a live session has not exited.
  live_runs :
      (before : List I) (id : I) (after : List I) (s : System E I A S D R)
      → s.live ≡ before ++ id ∷ after
      → Inv s
      → s.exited ≡ false
  live_runs before id after s l v = elim (Bool-cases s.exited) [
    | inl x ↦ absurd (ground (arith, v.drained x, length-append before (id ∷ after)))
    | inr x ↦ x
  ]

  task_posts :
      (id : I) (indicator : ClosedIndicator) (result : CloseResult) (s : System E I A S D R)
      → s.exited ≡ false
      → (await_close indicator).1 ≡ some (ready result)
      → record s { disconnections = s.disconnections ++ (id, result) ∷ [] }
        ≡ (session_task id indicator s).1
  unfolding session_task server_disconnected
  task_posts id indicator result s x a = ground arith

  task_takes :
      (id : I) (indicator : ClosedIndicator) (s : System E I A S D R)
      → (await_close indicator).0 ≡ none
      → (await_close (session_task id indicator s).0).1 ≡ none
  unfolding session_task await_close
  task_takes id indicator s a = ground arith

  -- What a session of a server ends with is what the server's extension is told. In any reachable
  -- state, take a session that runs, whose sink takes every message and whose requests and messages
  -- so far end it. Then the task of the session posts that end, by a step of the system, and the
  -- actor can go on to call `on_disconnect` for every end that is queued, in the order in which they
  -- were posted and for this one last, with exactly that result. Another `await_close` would panic.
  pub session_task-on_disconnect :
      {B X C : Type 0} {extension : E} (session : SessionExt X B)
      (channel_send : C → InRawMessage → C × Option InRawMessage) (bs : List (Branch B))
      (st : SessionState X C) (before : List I) (id : I) (after : List I) (result : CloseResult)
      (s : System E I A S D R)
      → ((c : C) (m : InRawMessage) → (channel_send c m).1 ≡ none)
      → Reach ext (start ext extension) s
      → s.live ≡ before ++ id ∷ after
      → ending session channel_send
          (serve_all session channel_send (requests bs) st.extension).1
          (closed_with bs)
        ≡ some result
      → let (left, posted) = session_task id (create_task session channel_send bs st).1 s in
        let s' = record posted { live = before ++ after } in
        let queue = s.disconnections ++ (id, result) ∷ [] in
        Step ext s s' × ((await_close left).1 ≡ none) × DispatchesAll queue s s'
  session_task-on_disconnect session channel_send bs st before id after result s takes r l e =
      let v = Reach-Inv ext r in
      let x = live_runs before id after s l v in
      let queue = s.disconnections ++ (id, result) ∷ [] in
      let s' = record s { live = before ++ after; disconnections = queue } in
      let post : Step ext s s' = session_ends before id after result l refl in
      let indicator = (create_task session channel_send bs st).1 in
      let (taken, yields) = await_close-create_task session channel_send bs st takes in
      let posts = task_posts id indicator result s x (ground (arith, yields, e)) in
      subst
        (λ u.
          Step ext s (record u { live = before ++ after })
          × ((await_close (session_task id indicator s).0).1 ≡ none)
          × DispatchesAll queue s (record u { live = before ++ after }))
        posts
        (post, task_takes id indicator s taken, dispatch_all queue s' refl x (Step-Inv ext post v))
