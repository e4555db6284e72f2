-- ===== src/Server/Shutdown.antt =====
-- What a shutdown stops, and whom it acknowledges (src/server.rs).
use ezsockets.Base.{List, [], arith, false, inl, inr, some, true, ℕ, ◌++◌, ◌∷◌, ◌≡◌, ◌⊎◌}
use ezsockets.Server.{
  NewConnection, ServerExt, drain_acks, going_away, is_done, server_step, shutdown,
}
use ezsockets.Server.System.{
  IsRunning, Reach, Step, System, accept, graceful_shutdown, here, next, round, session_ends,
  take_call, take_connection, take_disconnected, take_shutdown,
}
use ezsockets.Session.{CloseResult}

module _ {E I A S D R : Type 0} (ext : ServerExt E I A S D R) where
  -- During a shutdown nothing revives the server: it stays in it, accepts no session, and the
  -- extension changes by `on_disconnect` alone, whatever the step; unless the actor exits, a connection
  -- leaves the queue only to be refused with the frame `Away`.
  pub Step-shutting_down :
      {s t : System E I A S D R}
      → Step ext s t
      → s.actor.shutting_down ≡ true
      → (t.actor.shutting_down ≡ true)
        × (t.actor.spawned ≡ s.actor.spawned)
        × ((t.actor.extension ≡ s.actor.extension)
            ⊎ ((id : I) × (result : CloseResult) × (t.actor.extension
                  ≡ (ext.on_disconnect s.actor.extension id result).0)))
        × ((t.connections ≡ s.connections)
            ⊎ ((c : NewConnection S D R) × (t.connections ≡ s.connections ++ c ∷ []))
            ⊎ ((c : NewConnection S D R) × (s.connections ≡ c ∷ t.connections)
                × (t.actor.refused ≡ s.actor.refused ++ (c.socket, some going_away) ∷ []))
            ⊎ (t.exited ≡ true))
  unfolding server_step drain_acks
  Step-shutting_down {s} {t} (accept c h e) sd =
      (ground arith, ground arith, ground arith, inr (inl (c, ground arith)))
  Step-shutting_down {s} {t} (Step.call a h e) sd = ground arith
  Step-shutting_down {s} {t} (graceful_shutdown ack h e) sd = ground arith
  Step-shutting_down {s} {t} (session_ends before id after result h e) sd = ground arith
  Step-shutting_down {s} {t} (take_shutdown ack rest r h e) sd = ground arith
  Step-shutting_down {s} {t} (take_connection c rest r h room e) sd =
      (ground arith, ground arith, ground arith, inr (inr (inl (c, ground arith, ground arith))))
  Step-shutting_down {s} {t} (take_disconnected id result rest r h e) sd =
      (ground arith, ground arith, inr (id, result, ground arith), ground arith)
  Step-shutting_down {s} {t} (take_call a rest r h g e) sd = absurd (ground arith)
  Step-shutting_down {s} {t} (Step.exit h d e) sd = ground arith

  -- The state in which an actor with nobody left gives its acknowledgements.
  abbrev pub Leaving : List ℕ → System E I A S D R → Type 0
  Leaving acks s =
      ((s.exited ≡ false)
        × (is_done s.actor ≡ true)
        × (s.actor.acked ≡ [])
        × (s.actor.shutdown_acks ≡ acks))
      ⊎ ((s.exited ≡ true) × (s.actor.acked ≡ acks))

  Step-Leaving :
      (acks : List ℕ) {s t : System E I A S D R} → Step ext s t → Leaving acks s → Leaving acks t
  unfolding server_step drain_acks is_done
  Step-Leaving acks (accept c h e) l = ground arith
  Step-Leaving acks (Step.call a h e) l = ground arith
  Step-Leaving acks (graceful_shutdown ack h e) l = ground arith
  Step-Leaving acks (session_ends before id after result h e) l = ground arith
  Step-Leaving acks (take_shutdown ack rest r h e) l = ground arith
  Step-Leaving acks (take_connection c rest r h room e) l = ground arith
  Step-Leaving acks (take_disconnected id result rest r h e) l = ground arith
  Step-Leaving acks (take_call a rest r h g e) l = ground arith
  Step-Leaving acks (Step.exit h d e) l = ground arith

  Reach-Leaving :
      (acks : List ℕ) {s t : System E I A S D R} → Leaving acks s → Reach ext s t → Leaving acks t
  Reach-Leaving acks l here = l
  Reach-Leaving acks l (next r st) = Step-Leaving acks st (Reach-Leaving acks l r)

  -- With no live session, and nobody acknowledged or waiting for it yet, a shutdown acknowledges one
  -- caller only. Once the actor has taken the first
  -- request, whatever happens next, nobody but that caller is ever acknowledged: requests that were
  -- queued behind it at that moment are dropped.
  pub idle_shutdown_acks_first :
      (s t : System E I A S D R) (ack : ℕ) (rest : List ℕ)
      → IsRunning s
      → s.actor.active_sessions ≡ 0
      → s.actor.acked ≡ []
      → s.actor.shutdown_acks ≡ []
      → Reach ext (round ext (shutdown ack) (record s { shutdowns = rest })) t
      → (t.actor.acked ≡ []) ⊎ (t.actor.acked ≡ ack ∷ [])
  unfolding server_step is_done
  idle_shutdown_acks_first s t ack rest r idle none_acked no_acks reach =
      ground (arith, Reach-Leaving (ack ∷ []) (inl (ground arith)) reach)
