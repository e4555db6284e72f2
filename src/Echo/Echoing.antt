-- ===== src/Echo/Echoing.antt =====
-- What the sessions of the echo servers post.
use ezsockets.Base.{
  List, Option, [], ap, append-nil, append_assoc, arith, none, some, sym, true, ◌++◌, ◌∙◌, ◌∷◌, ◌≡◌,
}
use ezsockets.Echo.{echo_ext, echo_on_text, graceful_ext, graceful_on_text}
use ezsockets.Session.{Branch, SessionState, session_run}
use ezsockets.Session.Handlers.{
  Request, closed_with, ending, requests, serve_all, session_run-serve_all,
}
use ezsockets.Session.Requests.{NoBinary, texts_of}
use ezsockets.Socket.Message.{Utf8Bytes}
use ezsockets.Socket.Signal.{InRawMessage, Signals}

module _ {C : Type 0} (channel_send : C → InRawMessage → C × Option InRawMessage) where
  serves_echo :
      (rs : List (Request (Unit {0}))) (posted : List Utf8Bytes)
      → NoBinary rs
      → serve_all (echo_ext true) channel_send rs (some posted)
        ≡ (some (posted ++ texts_of rs), none)
  unfolding echo_on_text
  serves_echo [] posted h = ap (λ p. (some p, none)) (sym (append-nil posted))
  serves_echo (Request.text t ∷ rs) posted h =
      serves_echo rs (posted ++ t ∷ []) h
      ∙ ap (λ p. (some p, none)) (append_assoc posted (t ∷ []) (texts_of rs))
  serves_echo (Request.binary bytes ∷ rs) posted h = absurd h
  serves_echo (Request.call a ∷ rs) posted h = serves_echo rs posted h

  -- The graceful one echoes whatever else comes.
  pub serves_graceful :
      (rs : List (Request (Unit {0}))) (posted : List Utf8Bytes)
      → serve_all (graceful_ext true) channel_send rs posted ≡ (posted ++ texts_of rs, none)
  unfolding graceful_on_text
  serves_graceful [] posted = ap (λ p. (p, none)) (sym (append-nil posted))
  serves_graceful (Request.text t ∷ rs) posted =
      serves_graceful rs (posted ++ t ∷ [])
      ∙ ap (λ p. (p, none)) (append_assoc posted (t ∷ []) (texts_of rs))
  serves_graceful (Request.binary bytes ∷ rs) posted = serves_graceful rs posted
  serves_graceful (Request.call a ∷ rs) posted = serves_graceful rs posted

  -- With a sink that takes every message, a session of the echo server that hears no binary message
  -- posts exactly the texts that it hears before it is closed, in order; no handler panics or fails.
  pub session_run-echo :
      (bs : List (Branch (Unit {0}))) (channel : C) (signals : Signals)
      → ((c : C) (m : InRawMessage) → (channel_send c m).1 ≡ none)
      → NoBinary (requests bs)
      → let st : SessionState (Option (List Utf8Bytes)) C = record {
        extension = some [];
        channel = channel;
        signals = signals;
      } in
        let (st', r) = session_run (echo_ext true) channel_send bs st in
        (st'.extension ≡ some (texts_of (requests bs)))
        × (r ≡ ending (echo_ext true) channel_send none (closed_with bs))
  session_run-echo bs channel signals takes h =
      let st : SessionState (Option (List Utf8Bytes)) C = record {
        extension = some [];
        channel = channel;
        signals = signals;
      } in
      let (state, result) = session_run-serve_all (echo_ext true) channel_send bs st takes in
      let served = serves_echo (requests bs) [] h in
      (ground (arith, state, served), ground (arith, result, served))
