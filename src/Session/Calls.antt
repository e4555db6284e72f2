-- ===== src/Session/Calls.antt =====
-- `call` and `call_with` of `Session` (src/session.rs), `Server` (src/server.rs) and `Client`
-- (src/client.rs), which share their bodies. The channel is third-party code, of type `C`; `some a` is
-- the call that `SendError` gives back.
use ezsockets.Base.{Option, Result, Result-cases, arith, err, inl, inr, none, ok, some, ℕ, ◌≡◌}
use ezsockets.Session.{Poll, pending, ready}

-- `Ok(())`, or `Err(SendError(call))`.
send_result : {A : Type 0} → Option A → Result (Unit {0}) A
send_result none = ok tt
send_result (some a) = err a

module _ {A C : Type 0} (channel_send : C → A → C × Option A) where
  -- `call`.
  unfoldable pub send_call : A → C → C × Result (Unit {0}) A
  unfolding send_result
  send_call a c = let (c', r) = channel_send c a in (c', send_result r)

  -- After the send: what the receiver of the reply yields, if the call was taken.
  await_reply : {R : Type 0} → Result (Unit {0}) A → Poll (Option R) → Poll (Option R)
  await_reply (ok _) reply = reply
  await_reply (err a) reply = ready none

  -- `call_with`, at the sender of a new oneshot channel and at what its receiver yields: the reply, or
  -- nothing if the sender is dropped.
  unfoldable pub call_with : {R : Type 0} → (ℕ → A) → ℕ → Poll (Option R) → C → C × Poll (Option R)
  unfolding send_call await_reply
  call_with f sender reply c = let (c', r) = send_call (f sender) c in (c', await_reply r reply)

  -- `call_with` never waits for a call that was not taken, nor if the receiver of the call drops the
  -- sender; a reply is passed on only if the call was taken.
  pub call_with_lem :
      {R : Type 0} (f : ℕ → A) (sender : ℕ) (reply : Poll (Option R)) (c : C)
      → let (c', r) = call_with f sender reply c in
        (c' ≡ (send_call (f sender) c).0)
        × ((r ≡ pending) → (reply ≡ pending) × ((send_call (f sender) c).1 ≡ ok tt))
        × ((x : R)
            → r ≡ ready (some x)
            → (reply ≡ ready (some x)) × ((send_call (f sender) c).1 ≡ ok tt))
  unfolding call_with
  call_with_lem f sender reply c = elim (Result-cases (send_call (f sender) c).1) [
    | inl (u, e) ↦ ground arith
    | inr (a, e) ↦ ground arith
  ]
