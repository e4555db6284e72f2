-- ===== src/Client/System/Keeping.antt =====
-- No round of a client's task forgets a message (src/client.rs).
use ezsockets.Base.{
  Among, Among-last, Among-left, Bool, List, Result, [], ap, arith, false, if◌then◌else◌, inl, inr,
  subst, suc, sym, true, ℕ, ◌++◌, ◌∙◌, ◌∷◌, ◌≡◌, ◌≢◌, ◌⊎◌,
}
use ezsockets.Client.{ClientConfig, ClientExt, ClientSocket}
use ezsockets.Client.Actor.{ClientEvent, client_step}
use ezsockets.Client.Connect.{on_result}
use ezsockets.Client.System.{ClientSystem, dial, dialing, react, take_outgoing}
use ezsockets.Client.System.Fates.{Follows}
use ezsockets.Client.System.Following.{
  outgoing_signals, quiet_signals, result_signals, same_Follows, settle-Follows,
}
use ezsockets.Error.{WsError}
use ezsockets.Session.Failing.{HasFailed, drop_message-HasFailed, keeps_HasFailed}
use ezsockets.Socket.Signal.{InMessage, Signals, drop_message}

allocated_taken :
    (m : InMessage) (fails : Bool) (s : Signals)
    → (if fails then drop_message m s else s).allocated ≡ s.allocated
unfolding drop_message
allocated_taken m fails s = ground arith

module _ {E A K : Type 0} where
  -- The message goes to the socket, or fails.
  taken_fate :
      (m m' : InMessage) (queue : List InMessage) (fails : Bool) (s : ClientSystem E A K)
      → Among m' s.handed ⊎ HasFailed m' s.state.signals ⊎ Among m' (m ∷ queue)
      → Among m' (if fails then s.handed else s.handed ++ m ∷ [])
        ⊎ HasFailed m' (if fails then drop_message m s.state.signals else s.state.signals)
        ⊎ Among m' queue
  taken_fate m m' queue true s (inl h) = inl h
  taken_fate m m' queue true s (inr (inl h)) = inr (inl (keeps_HasFailed m' m s.state.signals h))
  taken_fate m m' queue true s (inr (inr (inl e))) = inr (
      inl (
        subst (λ x. HasFailed m' (drop_message x s.state.signals)) e
          (drop_message-HasFailed m' s.state.signals)))
  taken_fate m m' queue true s (inr (inr (inr h))) = inr (inr h)
  taken_fate m m' queue false s (inl h) = inl (Among-left m' s.handed (m ∷ []) h)
  taken_fate m m' queue false s (inr (inl h)) = inr (inl h)
  taken_fate m m' queue false s (inr (inr (inl e))) =
      inl (subst (λ x. Among m' (s.handed ++ x ∷ [])) e (Among-last m' s.handed))
  taken_fate m m' queue false s (inr (inr (inr h))) = inr (inr h)

module _ {E A K U H : Type 0} (ext : ClientExt E A) (config : ClientConfig U H) where
  pub dial-Follows :
      (max_attempts i : ℕ) (r : Result K WsError) (s : ClientSystem E A K)
      → s.state.world ≡ []
      → Follows s (dial ext config max_attempts i r s)
  unfolding dial
  dial-Follows max_attempts i r s w =
      let st0 = record (s.state) { connects = suc s.state.connects } in
      let (st, res) = on_result ext config max_attempts i r st0 in
      let (signals, world) = result_signals ext config max_attempts i r st0 in
      same_Follows (dialing max_attempts (suc i)) st res s.calls s signals (world ∙ w)

  pub react-Follows :
      (e : ClientEvent A) (socket : ClientSocket K) (waiting : List A) (s : ClientSystem E A K)
      → ((m : InMessage) (fails : Bool) (x : Result (Unit {0}) WsError)
          → e ≢ ClientEvent.outgoing m fails x)
      → s.state.world ≡ []
      → Follows s (react ext config e socket (record s { calls = waiting }))
  unfolding react
  react-Follows e socket waiting s q w =
      let (st, res) = client_step ext config e socket s.state in
      let (signals, world) = quiet_signals ext config e socket s.state q w in
      same_Follows (dialing config.max_reconnect_attempts 1) st res waiting s signals world

  pub take_Follows :
      (m : InMessage) (queue : List InMessage) (fails : Bool) (r : Result (Unit {0}) WsError)
      (socket : ClientSocket K) (s : ClientSystem E A K)
      → s.to_socket ≡ m ∷ queue
      → s.state.world ≡ []
      → Follows s (take_outgoing ext config (m ∷ queue) fails r socket s)
  unfolding take_outgoing react
  take_Follows m queue fails r socket s e w =
      let (st, res) = client_step ext config (ClientEvent.outgoing m fails r) socket s.state in
      let (signals, world) = outgoing_signals ext config m fails r socket s.state w in
      let handed = if fails then s.handed else s.handed ++ m ∷ [] in
      settle-Follows (dialing config.max_reconnect_attempts 1) st res s
        (record s { to_socket = queue; handed = handed })
        (omega (arith, ap (λ g. g.allocated) signals, allocated_taken m fails s.state.signals))
        world
        (λ m' b h.
          subst (λ g. Among m' handed ⊎ HasFailed m' g ⊎ Among m' queue) (sym signals)
            (taken_fate m m' queue fails s
              (subst (λ l. Among m' s.handed ⊎ HasFailed m' s.state.signals ⊎ Among m' l) e h)))
