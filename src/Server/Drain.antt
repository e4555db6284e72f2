-- ===== src/Server/Drain.antt =====
-- A shutdown of src/server.rs can always be carried through.
use ezsockets.Base.{List, [], ap, arith, false, none, ok, refl, true, ◌++◌, ◌∙◌, ◌∷◌, ◌≡◌}
use ezsockets.Server.{ServerExt, disconnected, drain_acks, is_done, server_step}
use ezsockets.Server.Invariant.{Inv, Reach-Inv, Step-Inv}
use ezsockets.Server.System.{
  IsRunning, Reach, Step, System, here, next, round, session_ends, start, take_disconnected,
}
use ezsockets.Session.{CloseResult}

module _ {E I A S D R : Type 0} (ext : ServerExt E I A S D R) where
  pub then : {s t u : System E I A S D R} → Step ext s t → Reach ext t u → Reach ext s u
  then st here = next here st
  then st (next r st') = next (then st r) st'

  pub extend : {s t u : System E I A S D R} → Reach ext s t → Reach ext t u → Reach ext s u
  extend r here = r
  extend r (next r' st) = next (extend r r') st

  keep : {s t : System E I A S D R} → Reach ext s t → Inv s → Inv t
  keep here v = v
  keep (next r st) v = Step-Inv ext st (keep r v)

  -- All live sessions end.
  end_all :
      (ids : List I) (s : System E I A S D R)
      → s.live ≡ ids
      → (t : System E I A S D R) × Reach ext s t
        × (t.live ≡ [])
        × (t.actor ≡ s.actor)
        × (t.exited ≡ s.exited)
  end_all [] s e = (s, here, e, refl, refl)
  end_all (id ∷ ids) s e =
      let s' = record s { live = ids; disconnections = s.disconnections ++ (id, ok none) ∷ [] } in
      let (t, r, l, a, x) = end_all ids s' refl in
      (t, then (session_ends [] id ids (ok none) e refl) r, l, a, x)

  -- The actor handles every end that is queued, and exits.
  handle_all :
      (queue : List (I × CloseResult)) (s : System E I A S D R)
      → s.disconnections ≡ queue
      → s.live ≡ []
      → s.exited ≡ false
      → s.actor.shutting_down ≡ true
      → Inv s
      → (t : System E I A S D R) × Reach ext s t
        × (t.exited ≡ true)
        × (t.actor.acked ≡ s.actor.acked ++ s.actor.shutdown_acks)
  unfolding is_done server_step drain_acks
  handle_all [] s q l x sd v =
      let left = record s {
        actor = drain_acks s.actor;
        exited = true;
        connections = [];
        calls = [];
        shutdowns = [];
        disconnections = [];
      } in
      (left, next here (Step.exit x (ground (arith, v.counted)) refl), refl, refl)
  handle_all ((id, result) ∷ queue) s q l x sd v =
      let running : IsRunning s = record { not_exited = x; not_done = ground (arith, v.counted) } in
      let s' = round ext (disconnected id result) (record s { disconnections = queue }) in
      let taken : Step ext s s' = take_disconnected id result queue running q refl in
      let (t, r, e, a) = handle_all queue s' refl l x sd (Step-Inv ext taken v) in
      (t, then taken r, e, a)

  -- However many sessions run and whatever is queued, a shutdown that has begun can be carried
  -- through: the sessions can end and the actor can handle their ends until it exits, and then every
  -- caller that it had taken is acknowledged, in the order in which they were taken.
  pub shutdown_completes :
      {extension : E} (s : System E I A S D R)
      → Reach ext (start ext extension) s
      → s.exited ≡ false
      → s.actor.shutting_down ≡ true
      → (t : System E I A S D R) × Reach ext s t
        × (t.exited ≡ true)
        × (t.actor.acked ≡ s.actor.shutdown_acks)
  shutdown_completes s r x sd =
      let v = Reach-Inv ext r in
      let (t, r', l, a, x') = end_all s.live s refl in
      let (u, r'', e, acks) =
        handle_all t.disconnections t refl l (x' ∙ x) (ap (λ c. c.shutting_down) a ∙ sd)
          (keep r' v) in
      (u, extend r' r'', e, ground (arith, v.acked_late x))
