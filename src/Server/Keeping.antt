-- ===== src/Server/Keeping.antt =====
-- What every handler of an extension keeps holds in every reachable state of src/server.rs.
use ezsockets.Base.{Bool-cases, Result-cases, arith, inl, inr, subst, sym, ℕ, ◌≡◌, ◌⊎◌}
use ezsockets.Server.{
  NewConnection, ServerExt, ServerState, connected, drain_acks, server_step, shutdown,
}
use ezsockets.Server.System.{
  Reach, Step, System, accept, graceful_shutdown, here, next, session_ends, start, take_call,
  take_connection, take_disconnected, take_shutdown,
}
use ezsockets.Session.{CloseResult}

module _ {E I A S D R : Type 0} (ext : ServerExt E I A S D R) where
  -- The handlers keep a property of the extension.
  pub record Keeps (P : E → Type 0) : Type 0 where
    pub on_connect : (e : E) (socket : S) (r : R) (d : D) → P e → P (ext.on_connect e socket r d).0
    pub on_disconnect :
        (e : E) (id : I) (result : CloseResult) → P e → P (ext.on_disconnect e id result).0
    pub on_call : (e : E) (a : A) → P e → P (ext.on_call e a).0

  shutdown_extension :
      (ack : ℕ) (st : ServerState E I S)
      → st.extension ≡ (server_step ext (shutdown ack) st).0.extension
  unfolding server_step
  shutdown_extension ack st = ground arith

  connected_extension :
      (c : NewConnection S D R) (st : ServerState E I S)
      → let e = (server_step ext (connected c) st).0.extension in
        (st.extension ≡ e) ⊎ ((ext.on_connect st.extension c.socket c.request c.address).0 ≡ e)
  unfolding server_step
  connected_extension c st = elim (Bool-cases st.shutting_down) [
    | inl sd ↦ inl (ground arith)
    | inr up ↦ elim (Result-cases (ext.on_connect st.extension c.socket c.request c.address).1) [
      | inl (id, q) ↦ inr (ground arith)
      | inr (f, q) ↦ inr (ground arith)
    ]
  ]

  module _ (P : E → Type 0) (k : Keeps P) where
    Step-Keeps :
        {s t : System E I A S D R} → Step ext s t → P s.actor.extension → P t.actor.extension
    unfolding server_step drain_acks
    Step-Keeps {s} {t} st p = elim st [
      | accept c h e ↦ by_path e p
      | Step.call a h e ↦ by_path e p
      | graceful_shutdown ack h e ↦ by_path e p
      | session_ends before id after result h e ↦ by_path e p
      | take_shutdown ack rest r h e ↦ by_path e (subst P (shutdown_extension ack s.actor) p)
      | take_connection c rest r h room e ↦ by_path e (elim (connected_extension c s.actor) [
        | inl q ↦ subst P q p
        | inr q ↦ subst P q (k.on_connect s.actor.extension c.socket c.request c.address p)
      ])
      | take_disconnected id result rest r h e ↦
          by_path e (k.on_disconnect s.actor.extension id result p)
      | take_call a rest r h g e ↦ by_path e (k.on_call s.actor.extension a p)
      | Step.exit h d e ↦ by_path e p
    ]
      where
        by_path : {u : System E I A S D R} → t ≡ u → P u.actor.extension → P t.actor.extension
        by_path e q = subst (λ x. P x.actor.extension) (sym e) q

    -- Whatever is connected, called and closed, in any interleaving: what the handlers keep holds.
    pub Reach-Keeps :
        {extension : E} {s : System E I A S D R}
        → P extension
        → Reach ext (start ext extension) s
        → P s.actor.extension
    Reach-Keeps p here = p
    Reach-Keeps p (next r st) = Step-Keeps st (Reach-Keeps p r)
