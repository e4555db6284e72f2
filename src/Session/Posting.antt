-- ===== src/Session/Posting.antt =====
-- Every message that a session's handles post (src/session.rs).
use ezsockets.Base.{
  List, Option, Option-cases, [], append-nil, append_assoc, arith, inl, inr, map, none, some, subst,
  sym, ◌++◌, ◌∙◌, ◌∷◌, ◌≡◌, ◌≢◌, ◌⊎◌,
}
use ezsockets.Session.{SessionExt}
use ezsockets.Session.Conserving.{Conserved, accepted_message, post_Conserved, raw_of}
use ezsockets.Session.Failing.{AllFailed}
use ezsockets.Session.Rounds.{round_Conserved}
use ezsockets.Session.System.{
  SessionMove, SessionSystem, actor_round, goes_round, handle_call, handle_post, makes_call,
  session_moves,
}
use ezsockets.Socket.Signal.{InMessage, InRawMessage}

module _ {E A C : Type 0} (ext : SessionExt E A)
    (channel_send : C → InRawMessage → C × Option InRawMessage) where
  -- The messages that the session's channel accepts, in order.
  abbrev pub accepted : List (SessionMove A) → SessionSystem E A C → List InMessage
  accepted [] s = []
  accepted (SessionMove.posts message ∷ ms) s = elim (handle_post message s) [
    | none ↦ []
    | some (s', r) ↦ accepted_message message r ++ accepted ms s'
  ]
  accepted (makes_call a ∷ ms) s = accepted ms (handle_call a s).0
  accepted (goes_round p ∷ ms) s = accepted ms (actor_round ext channel_send p s)

module _ {E A C : Type 0} (ext : SessionExt E A)
    (channel_send : C → InRawMessage → C × Option InRawMessage) (kept : C → List InRawMessage)
    (keeps : (c : C) (m : InRawMessage)
      → ((channel_send c m).1 ≡ none)
      → kept (channel_send c m).0 ≡ kept c ++ m ∷ [])
    (gives_back : (c : C) (m m' : InRawMessage)
      → ((channel_send c m).1 ≡ some m')
      → (m' ≡ m) × (kept (channel_send c m).0 ≡ kept c)) where
  call_Conserved :
      (a : A) (acc : List InMessage) (s : SessionSystem E A C)
      → Conserved kept acc s
      → Conserved kept acc (handle_call a s).0
  unfolding handle_call
  call_Conserved a acc s c = record {
    rest = c.rest;
    all = c.all;
    waits = c.waits;
    fails = c.fails;
    below = c.below;
  }

  moves_Conserved :
      (ms : List (SessionMove A)) (acc : List InMessage) (s : SessionSystem E A C)
      → Conserved kept acc s
      → Conserved kept (acc ++ accepted ext channel_send ms s) (session_moves ext channel_send ms s)
  unfolding session_moves
  moves_Conserved [] acc s c = subst (λ l. Conserved kept l s) (sym (append-nil acc)) c
  moves_Conserved (SessionMove.posts message ∷ ms) acc s c =
      let (s', r, posted, c') = post_Conserved kept message acc s c in
      subst
        (λ o.
          Conserved kept
            (acc ++ elim o [
              | none ↦ []
              | some (t, x) ↦ accepted_message message x ++ accepted ext channel_send ms t
            ])
            (elim o [ none ↦ s | some (t, x) ↦ session_moves ext channel_send ms t ]))
        (sym posted)
        (subst (λ l. Conserved kept l (session_moves ext channel_send ms s'))
          (append_assoc acc (accepted_message message r) (accepted ext channel_send ms s'))
          (moves_Conserved ms (acc ++ accepted_message message r) s' c'))
  moves_Conserved (makes_call a ∷ ms) acc s c =
      moves_Conserved ms acc (handle_call a s).0 (call_Conserved a acc s c)
  moves_Conserved (goes_round p ∷ ms) acc s c =
      moves_Conserved ms acc (actor_round ext channel_send p s)
        (round_Conserved ext channel_send kept keeps gives_back p acc s c)

  -- No message that a session accepts is lost in silence. From a new session on, whatever its handles
  -- and its actor do in turn, over a socket whose channel keeps what it takes and gives back what it
  -- does not: the messages that were accepted, in the order in which they were posted, are those that
  -- the socket's channel got, followed by a rest. While the session runs, the rest is what still waits
  -- in its queue; once it has ended, the signal of every message of the rest reads `Failed`.
  pub session_moves-accepted :
      (ms : List (SessionMove A)) (s : SessionSystem E A C)
      → kept s.actor.channel ≡ []
      → s.to_socket ≡ []
      → s.ended ≡ none
      → let s' = session_moves ext channel_send ms s in
        (rest : List InMessage) × (kept s'.actor.channel ++ map raw_of rest
          ≡ map raw_of (accepted ext channel_send ms s))
        × (((s'.ended ≡ none) × (rest ≡ s'.to_socket))
            ⊎ ((s'.ended ≢ none) × AllFailed rest s'.actor.signals))
  session_moves-accepted ms s unused no_posts runs =
      let s' = session_moves ext channel_send ms s in
      let fresh : Conserved kept [] s = record {
        rest = [];
        all = append-nil (kept s.actor.channel) ∙ unused;
        waits = λ e. sym no_posts;
        fails = λ e. tt;
        below = tt;
      } in
      let c = moves_Conserved ms [] s fresh in
      elim (Option-cases s'.ended) [
        | inl e ↦ (c.rest, c.all, inl (e, c.waits e))
        | inr (r, e) ↦
            let over : s'.ended ≢ none = λ n. ground (arith, e, n) in
            (c.rest, c.all, inr (over, c.fails over))
      ]
