-- ===== src/Client/System/Moving.antt =====
-- No move of a client, its handles or its task, forgets a message (src/client.rs).
use ezsockets.Base.{
  Among, Among-last, Among-left, Bool, Bool-cases, List, Result, [], arith, err, inl, inr, none, ok,
  refl, some, subst, suc, sym, true, ◌++◌, ◌∷◌, ◌≡◌, ◌⊎◌,
}
use ezsockets.Client.{ClientConfig, ClientExt, ClientSocket}
use ezsockets.Client.Actor.{ClientEvent}
use ezsockets.Client.Connect.{drain}
use ezsockets.Client.System.{
  ClientMove, ClientPhase, ClientSystem, asks, client_call, client_move, client_post, dialing,
  dials, drain_channel, drains, hears, is_listening, linked, over, take_client_call, take_outgoing,
  takes_call, takes_message, trying, writes,
}
use ezsockets.Client.System.Fates.{Fate, Follows, IsBelow}
use ezsockets.Client.System.Following.{on_drain-Follows}
use ezsockets.Client.System.Keeping.{dial-Follows, react-Follows, take_Follows}
use ezsockets.Error.{WsError}
use ezsockets.Handle.{post}
use ezsockets.Session.Conserving.{accepted_message}
use ezsockets.Session.Failing.{HasFailed, new_message-AllFailed}
use ezsockets.Socket.Message.{Message}
use ezsockets.Socket.Signal.{InMessage, MessageSignal, new, new_message}

module _ {E A K : Type 0} where
  -- The message that a move adds to the client's channel.
  abbrev pub accepted_by : ClientMove A K → ClientSystem E A K → List InMessage
  accepted_by (writes message) s = elim (client_post message s) [
    | none ↦ []
    | some (s', r) ↦ accepted_message message r
  ]
  accepted_by _ s = []

  -- A new signal and a longer queue leave the fates of the other messages alone.
  unposted-Fate :
      (message : Message) (x : InMessage) (s : ClientSystem E A K)
      → IsBelow x s.state.signals.allocated
      → Fate s x
      → Among x s.handed ⊎ HasFailed x (new_message message s.state.signals).1 ⊎ Among x s.to_socket
  unposted-Fate message x s b (inl h) = inl h
  unposted-Fate message x s b (inr (inl h)) =
      inr (inl (new_message-AllFailed message (x ∷ []) s.state.signals (b, tt) (h, tt)).0)
  unposted-Fate message x s b (inr (inr h)) = inr (inr h)

  posted-Fate :
      (message : Message) (x : InMessage) (s : ClientSystem E A K) (m : InMessage)
      → IsBelow x s.state.signals.allocated
      → Fate s x
      → Among x s.handed
        ⊎ HasFailed x (new_message message s.state.signals).1
        ⊎ Among x (s.to_socket ++ m ∷ [])
  posted-Fate message x s m b h = elim (unposted-Fate message x s b h) [
    | inl k ↦ inl k
    | inr (inl k) ↦ inr (inl k)
    | inr (inr k) ↦ inr (inr (Among-left x s.to_socket (m ∷ []) k))
  ]

  pub post-Follows :
      (message : Message) (s : ClientSystem E A K)
      → s.state.world ≡ []
      → (s' : ClientSystem E A K) × (r : Result MessageSignal InMessage) × (client_post message s
          ≡ some (s', r))
        × Follows s s'
        × ((m : InMessage)
            → Among m (accepted_message message r)
            → IsBelow m s'.state.signals.allocated × Among m s'.to_socket)
  unfolding client_post post new_message
  post-Follows message s w =
      let n = s.state.signals.allocated in
      let m : InMessage = record { message = some message; signal = some n } in
      let state = record (s.state) { signals = (new_message message s.state.signals).1 } in
      elim (Bool-cases (is_listening s)) [
        | inl e ↦ (
          record s { to_socket = s.to_socket ++ m ∷ []; state = state },
          ok n,
          ground (arith, e),
          record { grows = omega arith; fate = λ x b h. posted-Fate message x s m b h; world = w },
          (λ x h. elim h [
            | inl same ↦ (
              subst (λ y. IsBelow y (suc n)) (sym same) (omega arith),
              subst (λ y. Among x (s.to_socket ++ y ∷ [])) same (Among-last x s.to_socket),
            )
            | inr none_else ↦ absurd none_else
          ]),
        )
        | inr e ↦ (
          record s { state = state },
          err m,
          ground (arith, e),
          record { grows = omega arith; fate = λ x b h. unposted-Fate message x s b h; world = w },
          λ x h. absurd h,
        )
      ]

module _ {E A K U H : Type 0} (ext : ClientExt E A) (config : ClientConfig U H) where
  unmoved : (s : ClientSystem E A K) → s.state.world ≡ [] → Follows s s
  unmoved s w = record { grows = omega arith; fate = λ m b h. h; world = w }

  takes_Follows :
      (queue : List InMessage) (fails : Bool) (r : Result (Unit {0}) WsError)
      (socket : ClientSocket K) (s : ClientSystem E A K)
      → s.to_socket ≡ queue
      → s.state.world ≡ []
      → Follows s (take_outgoing ext config queue fails r socket s)
  unfolding take_outgoing
  takes_Follows [] fails r socket s e w = unmoved s w
  takes_Follows (m ∷ queue) fails r socket s e w =
      take_Follows ext config m queue fails r socket s e w

  calls_Follows :
      (queue : List A) (socket : ClientSocket K) (s : ClientSystem E A K)
      → s.state.world ≡ []
      → Follows s (take_client_call ext config queue socket s)
  unfolding take_client_call
  calls_Follows [] socket s w = unmoved s w
  calls_Follows (a ∷ queue) socket s w =
      react-Follows ext config (ClientEvent.called a) socket queue s (λ m fails x. ground arith) w

  pub move-Follows :
      (m : ClientMove A K) (phase : ClientPhase K) (s : ClientSystem E A K)
      → s.state.world ≡ []
      → Follows s (client_move ext config m phase s)
  unfolding client_move client_call drain_channel
  move-Follows (writes message) phase s w =
      let (s', r, posted, f, new) = post-Follows message s w in
      subst (λ o. Follows s (elim o [ none ↦ s | some (t, x) ↦ t ])) (sym posted) f
  move-Follows (asks a) phase s w = record { grows = omega arith; fate = λ m b h. h; world = w }
  move-Follows drains (dialing max_attempts i) s w =
      on_drain-Follows max_attempts i (drain s.to_socket true s.state.signals) s refl w
  move-Follows drains (trying max_attempts i) s w = unmoved s w
  move-Follows drains (linked socket) s w = unmoved s w
  move-Follows drains (over r) s w = unmoved s w
  move-Follows (dials result) (dialing max_attempts i) s w = unmoved s w
  move-Follows (dials result) (trying max_attempts i) s w =
      dial-Follows ext config max_attempts i result s w
  move-Follows (dials result) (linked socket) s w = unmoved s w
  move-Follows (dials result) (over r) s w = unmoved s w
  move-Follows (takes_message fails x) (dialing max_attempts i) s w = unmoved s w
  move-Follows (takes_message fails x) (trying max_attempts i) s w = unmoved s w
  move-Follows (takes_message fails x) (linked socket) s w =
      takes_Follows s.to_socket fails x socket s refl w
  move-Follows (takes_message fails x) (over r) s w = unmoved s w
  move-Follows takes_call (dialing max_attempts i) s w = unmoved s w
  move-Follows takes_call (trying max_attempts i) s w = unmoved s w
  move-Follows takes_call (linked socket) s w = calls_Follows s.calls socket s w
  move-Follows takes_call (over r) s w = unmoved s w
  move-Follows (hears x) (dialing max_attempts i) s w = unmoved s w
  move-Follows (hears x) (trying max_attempts i) s w = unmoved s w
  move-Follows (hears x) (linked socket) s w =
      react-Follows ext config (ClientEvent.incoming x) socket s.calls s (λ m fails y. ground arith)
        w
  move-Follows (hears x) (over r) s w = unmoved s w
