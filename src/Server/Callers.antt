-- ===== src/Server/Callers.antt =====
-- `Server::graceful_shutdown` of src/server.rs, as its callers see it. Each call makes a oneshot channel
-- of its own, which has a number.
use mathlib.Core.List.{Perm}
use ezsockets.Base.{
  Bool, Bool-cases, List, Result, [], arith, err, false, if◌then◌else◌, inl, inr, ok, true, ℕ, ◌++◌,
  ◌==◌, ◌||◌, ◌∷◌, ◌≡◌, ◌≢◌,
}
use ezsockets.Server.{ServerExt}
use ezsockets.Server.Dispatch.{acked-dispatched}
use ezsockets.Server.System.{Reach, System, start}
use ezsockets.Session.{Poll, pending, ready}

pub data GracefulShutdownError : Type 0 where
  server_stopped : GracefulShutdownError

-- `contains` of a number.
abbrev pub has_number : ℕ → List ℕ → Bool
has_number n [] = false
has_number n (m ∷ ms) = m == n || has_number n ms

module _ {E I A S D R : Type 0} where
  -- The first `await`: the acknowledgement goes to the actor, or the call fails.
  unfoldable pub send_shutdown :
      ℕ → System E I A S D R → System E I A S D R × Result (Unit {0}) GracefulShutdownError
  send_shutdown ack s =
      if s.exited
      then (s, err server_stopped)
      else (record s { shutdowns = s.shutdowns ++ ack ∷ [] }, ok tt)

  -- `ack_rx.await`: the receiver yields once its sender was used, and fails once it was dropped, which
  -- an actor that exits does to all that it did not use.
  unfoldable pub await_ack : ℕ → System E I A S D R → Poll (Result (Unit {0}) GracefulShutdownError)
  await_ack ack s =
      if has_number ack s.actor.acked
      then ready (ok tt)
      else if s.exited
      then ready (err server_stopped)
      else pending

nobody_acked : (n : ℕ) (ms : List ℕ) → has_number n ms ≡ true → ms ≢ []
nobody_acked n [] h = absurd (ground arith)
nobody_acked n (m ∷ ms) h = λ e. absurd (ground arith)

module _ {E I A S D R : Type 0} (ext : ServerExt E I A S D R) where
  -- A success of `graceful_shutdown` means what it says: in every reachable state, a caller that gets it
  -- finds the actor gone with no session left, and `on_disconnect` called for every session that was
  -- ever accepted, each as often as it was. And nobody waits for an actor that is gone.
  pub await_ack_lem :
      {extension : E} (ack : ℕ) (s : System E I A S D R)
      → Reach ext (start ext extension) s
      → ((await_ack ack s ≡ ready (ok tt))
          → (s.exited ≡ true) × (s.live ≡ []) × Perm s.actor.spawned s.actor.dispatched)
        × ((s.exited ≡ true) → await_ack ack s ≢ pending)
  unfolding await_ack
  await_ack_lem ack s r = (
    λ h. elim (Bool-cases (has_number ack s.actor.acked)) [
      | inl f ↦
          let (x, l, _, p) = acked-dispatched ext r (nobody_acked ack s.actor.acked f) in (x, l, p)
      | inr f ↦ absurd (ground arith)
    ],
    λ x. ground arith,
  )

  -- From `s'`, the call and those that the actor of `s` had taken can be served, and later ones fail.
  abbrev pub Serves : ℕ → System E I A S D R → System E I A S D R → Type 0
  Serves ack s s' =
      (t : System E I A S D R) × Reach ext s' t
      × (await_ack ack t ≡ ready (ok tt))
      × ((b : ℕ) → has_number b s.actor.shutdown_acks ≡ true → await_ack b t ≡ ready (ok tt))
      × ((b : ℕ) → (send_shutdown b t).1 ≡ err server_stopped)

  -- A call that the actor took before, and has acknowledged or will.
  abbrev IsTaken : ℕ → System E I A S D R → Type 0
  IsTaken ack s = has_number ack s.actor.acked || has_number ack s.actor.shutdown_acks ≡ true
