-- ===== src/Broadcast/Talking.antt =====
-- From a session of the chat through the server's actor to the other sessions.
use ezsockets.Base.{
  Bool, List, Option, [], ap, append-nil, append_assoc, arith, false, if◌then◌else◌, map, none,
  refl, some, subst, sym, true, ℕ, ◌++◌, ◌==◌, ◌∙◌, ◌∷◌, ◌≡◌,
}
use ezsockets.Broadcast.{
  call_server, BroadcastMessage, BroadcastServer, BroadcastSystem, FromText, broadcast_ext,
  call_broadcast, empty_broadcast, from_text, session_ext, session_on_text,
}
use ezsockets.Broadcast.Keeping.{HasKeys, Reach-HasKeys}
use ezsockets.Broadcast.Telling.{AreKeys, broadcast_on_call_lem, heard, told}
use ezsockets.Chat.{contains_key}
use ezsockets.Server.{ServerEvent, is_done, server_step}
use ezsockets.Server.Drain.{then}
use ezsockets.Server.System.{IsRunning, Reach, Step, here, round, start, take_call}
use ezsockets.Session.{Branch, SessionState, session_run}
use ezsockets.Session.Handlers.{
  Request, closed_with, ending, requests, serve_all, session_run-serve_all,
}
use ezsockets.Session.Requests.{NoBinary, texts_of}
use ezsockets.Socket.Message.{Utf8Bytes}
use ezsockets.Socket.Signal.{InRawMessage, Signals}

-- The calls that a session makes of the texts that it hears.
abbrev pub calls_for : (ℕ → Bool) → ℕ → List Utf8Bytes → List ((ℕ → Bool) × BroadcastMessage)
calls_for takes id [] = []
calls_for takes id (t ∷ ts) = (takes, BroadcastMessage.send id t) ∷ calls_for takes id ts

-- What a session hears of them: all of them if it is there, but nothing of its own.
abbrev pub told_all : ℕ → List ℕ → ℕ → List Utf8Bytes → List FromText
told_all j sessions from ts =
    if j == from then [] else if contains_key sessions j then map (from_text from) ts else []

told-told_all :
    (j : ℕ) (sessions : List ℕ) (from : ℕ) (t : Utf8Bytes) (ts : List Utf8Bytes)
    → told j sessions from (from_text from t) ++ told_all j sessions from ts
      ≡ told_all j sessions from (t ∷ ts)
told-told_all j sessions from t ts = ground arith

told_all-nil : (j : ℕ) (sessions : List ℕ) (from : ℕ) → told_all j sessions from [] ≡ []
told_all-nil j sessions from = ground arith

module _ {S D R : Type 0} where
  call_server_posts :
      (takes : ℕ → Bool) (call : BroadcastMessage) (s : BroadcastSystem S D R)
      → s.exited ≡ false
      → call_server takes call (some s) ≡ some (record s { calls = s.calls ++ (takes, call) ∷ [] })
  unfolding call_server
  call_server_posts takes call s x = rw x

  module _ {C : Type 0} (channel_send : C → InRawMessage → C × Option InRawMessage)
      (takes : ℕ → Bool) (id : ℕ) where
    -- The session serves the requests, and the server has these calls then.
    abbrev Arrives :
        List (Request (Unit {0}))
        → BroadcastSystem S D R
        → List ((ℕ → Bool) × BroadcastMessage)
        → Type 0
    Arrives rs s calls =
        (serve_all (session_ext takes id) channel_send rs (some s)
          ≡ (some (record s { calls = calls }), none))
        × Reach broadcast_ext s (record s { calls = calls })

    serves-calls :
        (rs : List (Request (Unit {0}))) (s : BroadcastSystem S D R)
        → s.exited ≡ false
        → NoBinary rs
        → Arrives rs s (s.calls ++ calls_for takes id (texts_of rs))
    unfolding session_on_text
    serves-calls [] s x nb = subst (Arrives [] s) (sym (append-nil s.calls)) (refl, here)
    serves-calls (Request.text t ∷ rs) s x nb =
        let call : (ℕ → Bool) × BroadcastMessage = (takes, BroadcastMessage.send id t) in
        let s1 = record s { calls = s.calls ++ call ∷ [] } in
        let (run, r) = serves-calls rs s1 x nb in
        subst (Arrives (Request.text t ∷ rs) s)
          (append_assoc s.calls (call ∷ []) (calls_for takes id (texts_of rs)))
          (
            ap (λ e. serve_all (session_ext takes id) channel_send rs e)
                  (call_server_posts takes (BroadcastMessage.send id t) s x)
                ∙ run,
            (then) broadcast_ext (Step.call call x refl) r,
          )
    serves-calls (Request.binary bytes ∷ rs) s x nb = absurd nb
    serves-calls (Request.call a ∷ rs) s x nb = serves-calls rs s x nb

  -- The actor's rounds for calls that are queued, and no other step.
  abbrev pub take_calls :
      List ((ℕ → Bool) × BroadcastMessage) → BroadcastSystem S D R → BroadcastSystem S D R
  take_calls [] s = s
  take_calls (call ∷ rest) s =
      take_calls rest (round broadcast_ext (ServerEvent.called call) (record s { calls = rest }))

  -- What the actor does with calls that are queued.
  record Told (s state : BroadcastSystem S D R) (c : BroadcastServer) (id : ℕ) (ts : List Utf8Bytes)
      : Type 0 where
    server : BroadcastServer
    reach : Reach broadcast_ext s state
    extension : state.actor.extension ≡ some server
    sessions : server.sessions ≡ c.sessions
    hears : (j : ℕ) → heard j server.posted ≡ heard j c.posted ++ told_all j c.sessions id ts

  tells :
      (takes : ℕ → Bool) (id : ℕ) (ts : List Utf8Bytes) (s : BroadcastSystem S D R)
      (c : BroadcastServer)
      → ((i : ℕ) → takes i ≡ true)
      → s.calls ≡ calls_for takes id ts
      → s.exited ≡ false
      → s.actor.shutting_down ≡ false
      → s.actor.extension ≡ some c
      → AreKeys c.sessions
      → Told s (take_calls (calls_for takes id ts) s) c id ts
  unfolding server_step is_done call_broadcast
  tells takes id [] s c all q x sd e keys = record {
    server = c;
    reach = here;
    extension = e;
    sessions = refl;
    hears = λ j. ground (arith, told_all-nil j c.sessions id, append-nil (heard j c.posted));
  }
  tells takes id (t ∷ ts) s c all q x sd e keys =
      let call : (ℕ → Bool) × BroadcastMessage = (takes, BroadcastMessage.send id t) in
      let (c', run, same, hear) = broadcast_on_call_lem takes id t c all keys in
      let running : IsRunning s = record { not_exited = x; not_done = ground arith } in
      let s' =
        round broadcast_ext (ServerEvent.called call)
          (record s { calls = calls_for takes id ts }) in
      let step : Step broadcast_ext s s' =
        take_call call (calls_for takes id ts) running q sd refl in
      let rest =
        tells takes id ts s' c' all refl x sd (ground (arith, e, run))
          (subst AreKeys (sym same) keys) in
      record {
        server = rest.server;
        reach = (then) broadcast_ext step rest.reach;
        extension = rest.extension;
        sessions = rest.sessions ∙ same;
        hears = λ j. ground (
          arith,
          rest.hears j,
          hear j,
          same,
          told-told_all j c.sessions id t ts,
          append_assoc (heard j c.posted) (told j c.sessions id (from_text id t))
              (told_all j c.sessions id ts),
        );
      }

  -- What one client says is posted to every other client. Take any reachable state of the chat in
  -- which the server runs with no call queued and no shutdown begun, and any rounds of the loop of a
  -- session that hears texts but no binary message, with a sink that takes every message. The session
  -- does not panic or fail, and ends only if it is closed. It leaves the server as it was but for one
  -- call for each text, queued in order. While the channels of the sessions are there, the rounds in
  -- which the actor takes just these calls do not panic, and then the handle of every other session
  -- that is connected was given all these texts after what it had before, in order, once, and with the
  -- id of who said them; nobody else, and not the speaker, was given anything.
  pub session_run-heard :
      {C : Type 0} (channel_send : C → InRawMessage → C × Option InRawMessage) (takes : ℕ → Bool)
      (id : ℕ) (bs : List (Branch (Unit {0}))) (channel : C) (signals : Signals)
      (s : BroadcastSystem S D R) (c : BroadcastServer)
      → ((k : C) (m : InRawMessage) → (channel_send k m).1 ≡ none)
      → ((i : ℕ) → takes i ≡ true)
      → Reach broadcast_ext (start broadcast_ext (some empty_broadcast)) s
      → s.exited ≡ false
      → s.actor.shutting_down ≡ false
      → s.calls ≡ []
      → s.actor.extension ≡ some c
      → NoBinary (requests bs)
      → let st : SessionState (Option (BroadcastSystem S D R)) C = record {
        extension = some s;
        channel = channel;
        signals = signals;
      } in
        let (st', r) = session_run (session_ext takes id) channel_send bs st in
        (r
          ≡ ending
              (session_ext {S = S} {D = D} {R = R} takes id)
              channel_send
              none
              (closed_with bs))
        × (let calls = calls_for takes id (texts_of (requests bs)) in
            let s' = record s { calls = calls } in
            let t = take_calls calls s' in
            (c' : BroadcastServer) × (st'.extension ≡ some s')
            × Reach broadcast_ext s s'
            × Reach broadcast_ext s' t
            × (t.actor.extension ≡ some c')
            × ((j : ℕ)
                → heard j c'.posted
                  ≡ heard j c.posted ++ told_all j c.sessions id (texts_of (requests bs))))
  session_run-heard channel_send takes id bs channel signals s c accepts all reached x sd q e nb =
      let st : SessionState (Option (BroadcastSystem S D R)) _ = record {
        extension = some s;
        channel = channel;
        signals = signals;
      } in
      let ts = texts_of (requests bs) in
      let calls = calls_for takes id ts in
      let s' = record s { calls = calls } in
      let (run, r) =
        subst (Arrives channel_send takes id (requests bs) s) (ap (λ l. l ++ calls) q)
          (serves-calls channel_send takes id (requests bs) s x nb) in
      let (ext, res) = session_run-serve_all (session_ext takes id) channel_send bs st accepts in
      let keys : AreKeys c.sessions = subst HasKeys e (Reach-HasKeys reached) in
      let tell = tells takes id ts s' c all refl x sd e keys in
      (
        ground (arith, res, run),
        (tell.server, ground (arith, ext, run), r, tell.reach, tell.extension, tell.hears),
      )
