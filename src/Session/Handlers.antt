-- ===== src/Session/Handlers.antt =====
-- Which handlers a session's loop (src/session.rs) calls, and how it ends.
use ezsockets.Base.{List, Option, Result, [], arith, err, none, ok, refl, some, ◌∷◌, ◌≡◌}
use ezsockets.Error.{Error}
use ezsockets.Session.{
  Branch, CloseResult, SessionExt, SessionState, called, incoming, outgoing, session_run,
  session_step,
}
use ezsockets.Socket.Message.{Bytes, CloseFrame, Message, Utf8Bytes}
use ezsockets.Socket.Signal.{InRawMessage, into_raw}

-- A request to one of the three handlers.
pub data Request (A : Type 0) : Type 0 where
  text : Utf8Bytes → Request A
  binary : Bytes → Request A
  call : A → Request A

-- The frame of a close message that the session sends.
abbrev pub closing_out : Option Message → Option (Option CloseFrame)
closing_out (some (Message.close f)) = some f
closing_out _ = none

module _ {A : Type 0} where
  -- The frame with which a round ends the session: that of a close message, either way, or none at
  -- the end of the stream.
  abbrev pub closing : Branch A → Option (Option CloseFrame)
  closing (outgoing inmessage) = closing_out inmessage.message
  closing (called a) = none
  closing (incoming (some (ok (Message.close f)))) = some f
  closing (incoming (some _)) = none
  closing (incoming none) = some none

  abbrev pub request : Branch A → Option (Request A)
  request (outgoing inmessage) = none
  request (called a) = some (Request.call a)
  request (incoming (some (ok (Message.text s)))) = some (Request.text s)
  request (incoming (some (ok (Message.binary bytes)))) = some (Request.binary bytes)
  request (incoming _) = none

  -- The requests before the session is closed.
  abbrev pub requests : List (Branch A) → List (Request A)
  requests [] = []
  requests (b ∷ bs) =
      let rest = requests bs in
      elim (closing b) [ some f ↦ [] | none ↦ elim (request b) [ some r ↦ r ∷ rest | none ↦ rest ] ]

  -- The frame of the first round that closes it.
  abbrev pub closed_with : List (Branch A) → Option (Option CloseFrame)
  closed_with [] = none
  closed_with (b ∷ bs) =
      let rest = closed_with bs in elim (closing b) [ some f ↦ some f | none ↦ rest ]

module _ {E A C : Type 0} (ext : SessionExt E A)
    (channel_send : C → InRawMessage → C × Option InRawMessage) where
  abbrev pub serve : Request A → E → E × Result (Unit {0}) Error
  serve (Request.text s) e = ext.on_text e s
  serve (Request.binary bytes) e = ext.on_binary e bytes
  serve (Request.call a) e = ext.on_call e a

  -- Serve the requests in turn, up to the first handler that fails.
  abbrev pub serve_all : List (Request A) → E → E × Option Error
  serve_all [] e = (e, none)
  serve_all (r ∷ rs) e =
      let (e', res) = serve r e in elim res [ ok _ ↦ serve_all rs e' | err x ↦ (e', some x) ]

  abbrev pub ending : Option Error → Option (Option CloseFrame) → Option CloseResult
  ending (some e) f = some (err e)
  ending none (some f) = some (ok f)
  ending none none = none

  -- With a sink that takes every message, the session calls the handlers for exactly the texts, the
  -- binaries and the calls that came before it was closed, in order and up to the first failure. It
  -- ends with that failure, else with the frame of the first close message, whoever sent it, and goes
  -- on otherwise: a connection error ends nothing.
  pub session_run-serve_all :
      (bs : List (Branch A)) (st : SessionState E C)
      → ((c : C) (m : InRawMessage) → (channel_send c m).1 ≡ none)
      → let (st', r) = session_run ext channel_send bs st in
        let (e, failure) = serve_all (requests bs) st.extension in
        (st'.extension ≡ e) × (r ≡ ending failure (closed_with bs))
  unfolding session_run session_step
  session_run-serve_all [] st takes = (refl, refl)
  session_run-serve_all (outgoing m ∷ bs) st takes = ground (
    arith,
    takes st.channel (into_raw m st.signals).0,
    session_run-serve_all bs (session_step ext channel_send (outgoing m) st).0 takes,
  )
  session_run-serve_all (called a ∷ bs) st takes =
      ground (arith, session_run-serve_all bs (session_step ext channel_send (called a) st).0 takes)
  session_run-serve_all (incoming message ∷ bs) st takes = ground (
    arith,
    session_run-serve_all bs (session_step ext channel_send (incoming message) st).0 takes,
  )
