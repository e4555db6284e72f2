-- ===== src/Server/Dispatch.antt =====
-- Every session that the server of src/server.rs accepts is handed to `on_disconnect` once.
use mathlib.Core.List.{Perm, perm_middle, map-append}
use mathlib.Core.List.Perm
use ezsockets.Base.{
  Bool-cases, List, Option, [], append-nil, append_assoc, arith, inl, inr, map, none, some, subst,
  true, ◌++◌, ◌∷◌, ◌≡◌, ◌≢◌,
}
use ezsockets.Server.{
  NewConnection, ServerExt, ServerState, connected, drain_acks, is_done, server_step,
}
use ezsockets.Server.Invariant.{Inv, Reach-Inv, lengths_nil}
use ezsockets.Server.System.{
  Reach, Step, System, accept, append_option, graceful_shutdown, here, next, session_ends, start,
  take_call, take_connection, take_disconnected, take_shutdown,
}

-- The sessions handed to `on_disconnect`, those whose end is queued, and those that run.
abbrev pub accounted : {E I A S D R : Type 0} → System E I A S D R → List I
accounted s = s.actor.dispatched ++ (map (λ p. p.0) s.disconnections ++ s.live)

pub ends_perm :
    {X : Type 0} (done queued before after : List X) (x : X)
    → Perm
        (done ++ (queued ++ (before ++ x ∷ after)))
        (done ++ ((queued ++ x ∷ []) ++ (before ++ after)))
ends_perm done queued before after x =
    Perm.append_left done (rw append_assoc (Perm.append_left queued (perm_middle before after)))

spawn_perm :
    {X : Type 0} (done queued live spawned : List X) (o : Option X)
    → Perm spawned (done ++ (queued ++ live))
    → Perm (append_option spawned o) (done ++ (queued ++ append_option live o))
spawn_perm done queued live spawned none p = p
spawn_perm done queued live spawned (some x) p =
    rw (← append_assoc, ← append_assoc) (Perm.append_right (x ∷ []) (rw (← append_assoc) at p))

drained_perm :
    {X Y : Type 0} (f : Y → X) (spawned done live : List X) (queue : List Y)
    → live ≡ []
    → queue ≡ []
    → Perm spawned (done ++ (map f queue ++ live))
    → Perm spawned done
drained_perm f spawned done live queue l q p = rw (q, l, append-nil) at p

module _ {E I A S D R : Type 0} (ext : ServerExt E I A S D R) where
  abbrev pub IsAccounted : System E I A S D R → Type 0
  IsAccounted s = Perm s.actor.spawned (accounted s)

  connected_logs :
      (c : NewConnection S D R) (st : ServerState E I S)
      → let (st', session) = server_step ext (connected c) st in
        (st'.spawned ≡ append_option st.spawned session) × (st'.dispatched ≡ st.dispatched)
  unfolding server_step
  connected_logs c st = ground arith

  Step-IsAccounted :
      {s t : System E I A S D R} → Step ext s t → Inv s → IsAccounted s → IsAccounted t
  unfolding server_step is_done drain_acks
  Step-IsAccounted {s} (accept c h e) v a = rw e a
  Step-IsAccounted (Step.call x h e) v a = rw e a
  Step-IsAccounted (graceful_shutdown ack h e) v a = rw e a
  Step-IsAccounted {s} (session_ends before id after result h e) v a = rw e (
      Perm.trans (rw h at a) (
        rw map-append
          (ends_perm s.actor.dispatched (map (λ p. p.0) s.disconnections) before after id)))
  Step-IsAccounted (take_shutdown ack rest r h e) v a = ground (arith, a)
  Step-IsAccounted {s} (take_connection c rest r h room e) v a =
      let (spawns, kept) = connected_logs c s.actor in
      rw e (
        rw (spawns, kept)
          (spawn_perm s.actor.dispatched (map (λ p. p.0) s.disconnections) s.live s.actor.spawned
            (server_step ext (connected c) s.actor).1 a))
  Step-IsAccounted {s} (take_disconnected id result rest r h e) v a =
      rw e (rw append_assoc (rw h at a))
  Step-IsAccounted (take_call x rest r h g e) v a = rw e a
  Step-IsAccounted {s} (Step.exit h d e) v a = rw e (
      subst (λ q. Perm s.actor.spawned (s.actor.dispatched ++ (map (λ p. p.0) q ++ s.live)))
        (lengths_nil s.live s.disconnections (ground (arith, v.counted))).1 a)

  start-IsAccounted : (extension : E) → IsAccounted (start ext extension)
  start-IsAccounted extension = Perm.refl []

  -- No interleaving loses a session or reports one twice: those that the extension accepted are, as a
  -- multiset, those handed to `on_disconnect`, those whose end is queued, and those that still run.
  pub Reach-IsAccounted :
      {extension : E} {s : System E I A S D R} → Reach ext (start ext extension) s → IsAccounted s
  Reach-IsAccounted {extension} here = start-IsAccounted extension
  Reach-IsAccounted (next r st) = Step-IsAccounted st (Reach-Inv ext r) (Reach-IsAccounted r)

  -- What `graceful_shutdown` promises: if anybody is acknowledged, the actor has exited, no session
  -- runs or waits to be handled, and the sessions handed to `on_disconnect` are exactly those that
  -- were accepted, each as often.
  pub acked-dispatched :
      {extension : E} {s : System E I A S D R}
      → Reach ext (start ext extension) s
      → s.actor.acked ≢ []
      → (s.exited ≡ true)
        × (s.live ≡ [])
        × (s.disconnections ≡ [])
        × Perm s.actor.spawned s.actor.dispatched
  acked-dispatched {s = s} r acked =
      let v = Reach-Inv ext r in
      elim (Bool-cases s.exited) [
        | inl e ↦
            let (l, q, _) = v.drained e in
            (
              e,
              l,
              q,
              drained_perm (λ p. p.0) s.actor.spawned s.actor.dispatched s.live s.disconnections l q
                  (Reach-IsAccounted r),
            )
        | inr e ↦ absurd (acked (v.acked_late e))
      ]
