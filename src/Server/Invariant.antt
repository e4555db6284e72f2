-- ===== src/Server/Invariant.antt =====
-- What holds of the server of src/server.rs in every interleaving.
use ezsockets.Base.{List, [], arith, false, length, length-append, refl, true, ◌+◌, ◌∷◌, ◌≡◌}
use ezsockets.Server.{ServerExt, drain_acks, is_done, server_step}
use ezsockets.Server.System.{
  Reach, Step, System, accept, graceful_shutdown, here, next, session_ends, start, take_call,
  take_connection, take_disconnected, take_shutdown,
}

pub record Inv {E I A S D R : Type 0} (s : System E I A S D R) : Type 0 where
  -- The counter is exact.
  pub counted : s.actor.active_sessions ≡ length s.live + length s.disconnections
  -- An actor that is gone leaves no session behind.
  pub drained :
      s.exited ≡ true → (s.live ≡ []) × (s.disconnections ≡ []) × (s.actor.shutdown_acks ≡ [])
  pub shut : s.exited ≡ true → s.actor.shutting_down ≡ true
  -- Nobody is acknowledged before.
  pub acked_late : s.exited ≡ false → s.actor.acked ≡ []
  pub signal : s.actor.signalled ≡ s.actor.shutting_down

pub lengths_nil :
    {X Y : Type 0} (xs : List X) (ys : List Y) → 0 ≡ length xs + length ys → (xs ≡ []) × (ys ≡ [])
lengths_nil [] [] h = (refl, refl)
lengths_nil [] (y ∷ ys) h = absurd (omega arith)
lengths_nil (x ∷ xs) ys h = absurd (omega arith)

module _ {E I A S D R : Type 0} (ext : ServerExt E I A S D R) where
  pub Step-Inv : {s t : System E I A S D R} → Step ext s t → Inv s → Inv t
  unfolding server_step is_done drain_acks
  Step-Inv (accept c h e) v = ground arith
  Step-Inv (Step.call a h e) v = ground arith
  Step-Inv (graceful_shutdown ack h e) v = ground arith
  Step-Inv {s} (session_ends before id after result h e) v = ground (
    arith,
    length-append before (id ∷ after),
    length-append before after,
    length-append s.disconnections ((id, result) ∷ []),
  )
  Step-Inv (take_shutdown ack rest r h e) v = ground arith
  Step-Inv {s} (take_connection c rest r h room e) v = grind (arith, length-append)
  Step-Inv (take_disconnected id result rest r h e) v = ground arith
  Step-Inv (take_call a rest r h g e) v = ground arith
  Step-Inv {s} (Step.exit h d e) v = ground (arith, lengths_nil s.live s.disconnections)

  start-Inv : (extension : E) → Inv (start ext extension)
  start-Inv extension = ground arith

  -- Whatever the callers, the sessions and the actor do, in any interleaving: the session counter is
  -- exactly the number of sessions that still run or whose end is not yet handled, an actor that has
  -- exited left no session and no acknowledgement behind, and nobody was acknowledged before.
  pub Reach-Inv :
      {extension : E} {s : System E I A S D R} → Reach ext (start ext extension) s → Inv s
  Reach-Inv {extension} here = start-Inv extension
  Reach-Inv (next r st) = Step-Inv st (Reach-Inv r)
