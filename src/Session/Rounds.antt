-- ===== src/Session/Rounds.antt =====
-- A round of a session's actor (src/session.rs) loses no message.
use ezsockets.Base.{
  List, Option, Option-cases, Result, [], ap, append_assoc, arith, inl, inr, map, none, refl, some,
  subst, sym, ◌++◌, ◌∙◌, ◌∷◌, ◌≡◌, ◌≢◌, ◌⊎◌,
}
use ezsockets.Error.{WsError}
use ezsockets.Session.{Branch, CloseResult, Poll, SessionExt, SessionState, select, session_step}
use ezsockets.Session.Conserving.{Conserved, raw_of}
use ezsockets.Session.Failing.{
  AllBelow, AllFailed, AllFailed-append, HasFailed, allocated-drop_all, drop_all-AllFailed,
  keeps_AllFailed,
}
use ezsockets.Session.System.{
  SessionSystem, actor_round, after_step, alive, drop_all, poll_queue, receive, tail, take_branch,
}
use ezsockets.Socket.Message.{Message}
use ezsockets.Socket.Signal.{InMessage, InRawMessage, drop_raw, into_raw, status}

module _ {E A C : Type 0} (ext : SessionExt E A)
    (channel_send : C → InRawMessage → C × Option InRawMessage) (kept : C → List InRawMessage)
    (keeps : (c : C) (m : InRawMessage)
      → ((channel_send c m).1 ≡ none)
      → kept (channel_send c m).0 ≡ kept c ++ m ∷ [])
    (gives_back : (c : C) (m m' : InRawMessage)
      → ((channel_send c m).1 ≡ some m')
      → (m' ≡ m) × (kept (channel_send c m).0 ≡ kept c)) where
  -- A step of the actor that does not send leaves the channel and the signals alone.
  step_same :
      (b : Branch A) (st : SessionState E C)
      → ((m : InMessage) → b ≢ Branch.outgoing m)
      → let st' = (session_step ext channel_send b st).0 in
        (st'.channel ≡ st.channel) × (st'.signals ≡ st.signals)
  unfolding session_step
  step_same (Branch.outgoing m) st h = absurd (h m refl)
  step_same (Branch.called a) st h = ground arith
  step_same (Branch.incoming r) st h = ground arith

  -- The round ends with the channel and the signals of `actor`, where `lost` did not get through.
  after_Conserved :
      (lost : List InMessage) (actor : SessionState E C) (r : Option CloseResult)
      (acc : List InMessage) (s : SessionSystem E A C)
      → s.ended ≡ none
      → kept actor.channel ++ map raw_of (lost ++ s.to_socket) ≡ map raw_of acc
      → AllBelow (lost ++ s.to_socket) actor.signals.allocated
      → AllFailed lost actor.signals
      → (r ≡ none → lost ≡ [])
      → Conserved kept acc (after_step (actor, r) s)
  unfolding after_step
  after_Conserved lost actor none acc s e all below dead through = record {
    rest = lost ++ s.to_socket;
    all = all;
    waits = λ x. ap (λ l. l ++ s.to_socket) (through refl);
    fails = λ x. absurd (x e);
    below = below;
  }
  after_Conserved lost actor (some r) acc s e all below dead through = record {
    rest = lost ++ s.to_socket;
    all = all;
    waits = λ x. absurd (ground (arith, x));
    fails = λ x.
        AllFailed-append lost s.to_socket (drop_all s.to_socket actor.signals)
          (keeps_AllFailed s.to_socket lost actor.signals dead)
          (drop_all-AllFailed s.to_socket actor.signals);
    below = rw allocated-drop_all below;
  }

  -- The branch has received what its channel held.
  abbrev Received : Branch A → SessionSystem E A C → Type 0
  Received (Branch.outgoing m) s = s.to_socket ≡ m ∷ tail s.to_socket
  Received _ s = Unit {0}

  select-Received :
      (p : Poll (Option (Result Message WsError))) (b : Branch A) (s : SessionSystem E A C)
      → select (record {
        to_socket = poll_queue s.to_socket;
        session_call = poll_queue s.calls;
        socket_recv = p;
      })
        ≡ some b
      → Received b s
  unfolding select
  select-Received p (Branch.outgoing m) s h = ground (arith, h)
  select-Received p (Branch.called a) s h = tt
  select-Received p (Branch.incoming r) s h = tt

  -- The socket's channel gets the message, or it has failed and the actor returns.
  outgoing_step :
      (m : InMessage) (st : SessionState E C)
      → let (st', r) = session_step ext channel_send (Branch.outgoing m) st in
        (st'.signals.allocated ≡ st.signals.allocated)
        × ((kept st'.channel ≡ kept st.channel ++ raw_of m ∷ [])
            ⊎ ((kept st'.channel ≡ kept st.channel) × HasFailed m st'.signals × (r ≢ none)))
  unfolding session_step into_raw drop_raw status
  outgoing_step m st = elim (Option-cases (channel_send st.channel (raw_of m)).1) [
    | inl e ↦ ground (arith, e, keeps st.channel (raw_of m) e)
    | inr (m', e) ↦ ground (arith, e, gives_back st.channel (raw_of m) m' e)
  ]

  step_keeps :
      (b : Branch A) (acc : List InMessage) (s : SessionSystem E A C)
      → ((m : InMessage) → b ≢ Branch.outgoing m)
      → s.ended ≡ none
      → Conserved kept acc s
      → let st = (session_step ext channel_send b s.actor).0 in
        (kept st.channel ++ map raw_of s.to_socket ≡ map raw_of acc)
        × AllBelow s.to_socket st.signals.allocated
  step_keeps b acc s quiet e c =
      let (channel, signals) = step_same b s.actor quiet in
      (
        ap (λ k. kept k ++ map raw_of s.to_socket) channel
            ∙ ap (λ l. kept s.actor.channel ++ map raw_of l) (sym (c.waits e))
            ∙ c.all,
        subst (λ g. AllBelow s.to_socket g.allocated) (sym signals)
            (subst (λ l. AllBelow l s.actor.signals.allocated) (c.waits e) c.below),
      )

  take_Conserved :
      (b : Branch A) (acc : List InMessage) (s : SessionSystem E A C)
      → s.ended ≡ none
      → Received b s
      → Conserved kept acc s
      → Conserved kept acc (take_branch ext channel_send (some b) s)
  unfolding take_branch receive
  take_Conserved (Branch.outgoing m) acc s e h c =
      let (st, r) = session_step ext channel_send (Branch.outgoing m) s.actor in
      let q = tail s.to_socket in
      let full : c.rest ≡ m ∷ q = c.waits e ∙ h in
      let base : kept s.actor.channel ++ map raw_of (m ∷ q) ≡ map raw_of acc =
        ap (λ l. kept s.actor.channel ++ map raw_of l) (sym full) ∙ c.all in
      let (same, sent_or_lost) = outgoing_step m s.actor in
      let below : AllBelow (m ∷ q) st.signals.allocated =
        subst (λ n. AllBelow (m ∷ q) n) (sym same)
          (subst (λ l. AllBelow l s.actor.signals.allocated) full c.below) in
      let s' = receive (Branch.outgoing m) s in
      elim sent_or_lost [
        | inl k ↦
            after_Conserved [] st r acc s' e
              (ap (λ l. l ++ map raw_of q) k
                ∙ append_assoc (kept s.actor.channel) (raw_of m ∷ []) (map raw_of q)
                ∙ base)
              below.1 tt (λ x. refl)
        | inr (k, lost, returns) ↦
            after_Conserved (m ∷ []) st r acc s' e (ap (λ l. l ++ map raw_of (m ∷ q)) k ∙ base)
              below (lost, tt) (λ x. absurd (returns x))
      ]
  take_Conserved (Branch.called a) acc s e h c =
      let (st, r) = session_step ext channel_send (Branch.called a) s.actor in
      let (all, below) = step_keeps (Branch.called a) acc s (λ m x. ground (arith, x)) e c in
      after_Conserved [] st r acc (receive (Branch.called a) s) e all below tt (λ x. refl)
  take_Conserved (Branch.incoming message) acc s e h c =
      let (st, r) = session_step ext channel_send (Branch.incoming message) s.actor in
      let (all, below) =
        step_keeps (Branch.incoming message) acc s (λ m x. ground (arith, x)) e c in
      after_Conserved [] st r acc s e all below tt (λ x. refl)

  pub round_Conserved :
      (p : Poll (Option (Result Message WsError))) (acc : List InMessage) (s : SessionSystem E A C)
      → Conserved kept acc s
      → Conserved kept acc (actor_round ext channel_send p s)
  unfolding actor_round alive take_branch
  round_Conserved p acc s c =
      let chosen = select (record {
        to_socket = poll_queue s.to_socket;
        session_call = poll_queue s.calls;
        socket_recv = p;
      }) in
      elim (Option-cases s.ended) [
        | inl e ↦ elim (Option-cases chosen) [
          | inl h ↦
              let waits : actor_round ext channel_send p s ≡ s = ground (arith, e, h) in
              subst (λ s'. Conserved kept acc s') (sym waits) c
          | inr (b, h) ↦
              let takes : actor_round ext channel_send p s
                  ≡ take_branch ext channel_send (some b) s =
                ground (arith, e, h) in
              subst (λ s'. Conserved kept acc s') (sym takes)
                (take_Conserved b acc s e (select-Received p b s h) c)
        ]
        | inr (r, e) ↦
            let over : actor_round ext channel_send p s ≡ s = ground (arith, e) in
            subst (λ s'. Conserved kept acc s') (sym over) c
      ]
