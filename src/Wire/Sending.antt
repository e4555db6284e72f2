-- ===== src/Wire/Sending.antt =====
-- What a running session has handed to its socket.
use ezsockets.Base.{
  List, Option, [], append-nil, append_assoc, arith, map, none, refl, sym, ◌++◌, ◌∷◌, ◌≡◌,
}
use ezsockets.Session.{Branch, SessionExt, SessionState, session_run, session_step}
use ezsockets.Socket.Message.{to_raw}
use ezsockets.Socket.Signal.{InRawMessage, into_raw}
use ezsockets.Wire.{outgoings, raws}

raws-append : (xs ys : List InRawMessage) → raws (xs ++ ys) ≡ raws xs ++ raws ys
raws-append [] ys = refl
raws-append (m ∷ xs) ys = ground (arith, raws-append xs ys)

module _ {E A K : Type 0} (ext : SessionExt E A)
    (channel_send : K → InRawMessage → K × Option InRawMessage) (kept : K → List InRawMessage)
    (keeps : (c : K) (m : InRawMessage) → kept (channel_send c m).0 ≡ kept c ++ m ∷ []) where
  -- As long as it runs, its socket's channel gets what it sends, in order.
  pub raws-session_run :
      (bs : List (Branch A)) (st : SessionState E K)
      → (session_run ext channel_send bs st).1 ≡ none
      → raws (kept (session_run ext channel_send bs st).0.channel)
        ≡ raws (kept st.channel) ++ map to_raw (outgoings bs)
  unfolding session_run session_step into_raw
  raws-session_run [] st goes_on = sym (append-nil (raws (kept st.channel)))
  raws-session_run (Branch.outgoing m ∷ bs) st goes_on = ground (
    arith,
    keeps st.channel (into_raw m st.signals).0,
    raws-append (kept st.channel) ((into_raw m st.signals).0 ∷ []),
    append_assoc (raws (kept st.channel)) (raws ((into_raw m st.signals).0 ∷ []))
        (map to_raw (outgoings bs)),
    raws-session_run bs (session_step ext channel_send (Branch.outgoing m) st).0,
  )
  raws-session_run (Branch.called a ∷ bs) st goes_on =
      ground (arith, raws-session_run bs (session_step ext channel_send (Branch.called a) st).0)
  raws-session_run (Branch.incoming r ∷ bs) st goes_on =
      ground (arith, raws-session_run bs (session_step ext channel_send (Branch.incoming r) st).0)
