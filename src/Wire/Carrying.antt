-- ===== src/Wire/Carrying.antt =====
-- Each leg of a message's way.
use ezsockets.Base.{
  Bool, List, Result, [], append-nil, append_assoc, arith, err, false, if◌then◌else◌, is_err, map,
  ok, refl, some, sym, ◌++◌, ◌∷◌, ◌≡◌,
}
use ezsockets.Error.{WsError}
use ezsockets.Session.{Branch}
use ezsockets.Session.Handlers.{closed_with, requests}
use ezsockets.Socket.Message.{Message, RawMessage}
use ezsockets.Socket.Sink.Delivery.{send_all}
use ezsockets.Socket.Stream.{StreamEvent, ended, item}
use ezsockets.Socket.Stream.Forwarding.{NoPanic, outputs, push_all}
use ezsockets.Tungstenite.{TungsteniteMessage, from_tungstenite, to_tungstenite}
use ezsockets.Tungstenite.Conversions.{from_tungstenite-to_tungstenite}
use ezsockets.Wire.{
  ClosesNothing, before_close, close_of, conveyed, incomings, messages, taken, yielded,
}

-- The sender: what the socket has written is what it took, in tungstenite's types.
module _ {M S : Type 0} (from_raw : RawMessage → M)
    (sink_send : S → M → S × Result (Unit {0}) WsError) (written : S → List M)
    (writes : (s : S) (m : M)
      → written (sink_send s m).0
        ≡ (if is_err (sink_send s m).1 then written s else written s ++ m ∷ [])) where
  pub written-send_all :
      (ms : List RawMessage) (s : S)
      → written (send_all from_raw sink_send ms s).0
        ≡ written s ++ map from_raw (taken from_raw sink_send ms s)
  written-send_all [] s = sym (append-nil (written s))
  written-send_all (m ∷ ms) s = ground (
    arith,
    writes s (from_raw m),
    append-nil (written s),
    written-send_all ms (sink_send s (from_raw m)).0,
    append_assoc (written s) (from_raw m ∷ [])
        (map from_raw (taken from_raw sink_send ms (sink_send s (from_raw m)).0)),
  )

module _ {F : Type 0} where
  -- The receiver: what comes in as it was written makes nothing panic, and is passed on without the
  -- pings and the pongs.
  pub yielded-NoPanic :
      (es : List (StreamEvent (TungsteniteMessage F))) (ms : List RawMessage)
      → yielded es ≡ map ok (map to_tungstenite ms)
      → NoPanic from_tungstenite es
  yielded-NoPanic [] ms e = tt
  yielded-NoPanic (item now (ok t) ∷ es) [] e = ground (arith, e)
  yielded-NoPanic (item now (ok t) ∷ es) (m ∷ ms) e = (
    λ n. ground (arith, from_tungstenite-to_tungstenite F m),
    yielded-NoPanic es ms (ground (arith, e)),
  )
  yielded-NoPanic (item now (err x) ∷ es) [] e = ground (arith, e)
  yielded-NoPanic (item now (err x) ∷ es) (m ∷ ms) e = ground (arith, e)
  yielded-NoPanic (ended ∷ es) ms e = tt

  pub yielded-outputs :
      (es : List (StreamEvent (TungsteniteMessage F))) (ms : List RawMessage)
      → yielded es ≡ map ok (map to_tungstenite ms)
      → outputs from_tungstenite es ≡ map ok (messages ms)
  yielded-outputs [] [] e = refl
  yielded-outputs [] (m ∷ ms) e = ground (arith, e)
  yielded-outputs (item now r ∷ es) [] e = ground (arith, e)
  yielded-outputs (item now r ∷ es) (m ∷ ms) e =
      ground (arith, from_tungstenite-to_tungstenite F m, yielded-outputs es ms)
  yielded-outputs (ended ∷ es) [] e = refl
  yielded-outputs (ended ∷ es) (m ∷ ms) e = ground (arith, e)

-- The channel between the receiver's stream actor and its session: a queue that takes everything.
module _ {C : Type 0} (push : C → Result Message WsError → C × Bool)
    (queued : C → List (Result Message WsError))
    (pushes : (c : C) (m : Result Message WsError) → queued (push c m).0 ≡ queued c ++ m ∷ [])
    (takes : (c : C) (m : Result Message WsError) → (push c m).1 ≡ false) where
  pub queued-push_all :
      (ms : List (Result Message WsError)) (c : C) → queued (push_all push ms c).0 ≡ queued c ++ ms
  queued-push_all [] c = sym (append-nil (queued c))
  queued-push_all (m ∷ ms) c = ground (
    arith,
    pushes c m,
    takes c m,
    queued-push_all ms (push c m).0,
    append_assoc (queued c) (m ∷ []) ms,
  )

module _ {A : Type 0} where
  -- The session: it hears the messages up to the first close message, and is closed with that one's frame.
  pub incomings-requests :
      (bs : List (Branch A)) (ms : List Message)
      → incomings bs ≡ map some (map ok ms)
      → ClosesNothing bs
      → (conveyed (requests bs) ≡ before_close ms) × (closed_with bs ≡ close_of ms)
  incomings-requests [] [] e h = (refl, refl)
  incomings-requests [] (m ∷ ms) e h = ground (arith, e)
  incomings-requests (Branch.outgoing m ∷ bs) ms e h = ground (arith, incomings-requests bs ms e)
  incomings-requests (Branch.called a ∷ bs) ms e h = ground (arith, incomings-requests bs ms e h)
  incomings-requests (Branch.incoming r ∷ bs) [] e h = ground (arith, e)
  incomings-requests (Branch.incoming r ∷ bs) (m ∷ ms) e h =
      ground (arith, incomings-requests bs ms)
