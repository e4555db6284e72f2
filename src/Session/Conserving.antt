-- ===== src/Session/Conserving.antt =====
-- What becomes of the messages that the handles of a session post (src/session.rs).
use mathlib.Core.Option
use mathlib.Core.List.{map-append}
use ezsockets.Base.{
  List, Option-cases, Result, [], ap, append-nil, append_assoc, arith, err, inl, inr, map, none, ok,
  some, suc, sym, ◌++◌, ◌∙◌, ◌∷◌, ◌≡◌, ◌≢◌,
}
use ezsockets.Handle.{post}
use ezsockets.Session.Failing.{
  AllBelow, AllBelow-append, AllBelow-suc, AllFailed, new_message-AllFailed,
}
use ezsockets.Session.System.{SessionSystem, alive, handle_post}
use ezsockets.Socket.Message.{Message, to_raw}
use ezsockets.Socket.Signal.{InMessage, InRawMessage, MessageSignal, new_message}

-- The raw message that the socket's channel gets.
abbrev pub raw_of : InMessage → InRawMessage
raw_of m = record { message = Option.map to_raw m.message; signal = m.signal }

-- The message that a post has accepted, if it has.
abbrev pub accepted_message : Message → Result MessageSignal InMessage → List InMessage
accepted_message message (ok signal) = record { message = some message; signal = some signal } ∷ []
accepted_message message (err m) = []

snoc_all :
    (xs : List InRawMessage) (ms acc : List InMessage) (m : InMessage)
    → xs ++ map raw_of ms ≡ map raw_of acc
    → xs ++ map raw_of (ms ++ m ∷ []) ≡ map raw_of (acc ++ m ∷ [])
snoc_all xs ms acc m e =
    ap (λ l. xs ++ l) (map-append raw_of ms (m ∷ []))
    ∙ sym (append_assoc xs (map raw_of ms) (raw_of m ∷ []))
    ∙ ap (λ l. l ++ raw_of m ∷ []) e
    ∙ sym (map-append raw_of acc (m ∷ []))

module _ {E A C : Type 0} (kept : C → List InRawMessage) where
  -- The accepted messages are those that the socket's channel was given and a rest: the session's own
  -- queue while it runs, and messages that have failed once it has ended.
  pub record Conserved (acc : List InMessage) (s : SessionSystem E A C) : Type 0 where
    pub rest : List InMessage
    pub all : kept s.actor.channel ++ map raw_of rest ≡ map raw_of acc
    pub waits : s.ended ≡ none → rest ≡ s.to_socket
    pub fails : s.ended ≢ none → AllFailed rest s.actor.signals
    pub below : AllBelow rest s.actor.signals.allocated

  pub post_Conserved :
      (message : Message) (acc : List InMessage) (s : SessionSystem E A C)
      → Conserved acc s
      → (s' : SessionSystem E A C) × (r : Result MessageSignal InMessage) × (handle_post message s
          ≡ some (s', r))
        × Conserved (acc ++ accepted_message message r) s'
  unfolding handle_post alive post new_message
  post_Conserved message acc s c =
      let n = s.actor.signals.allocated in
      let m : InMessage = record { message = some message; signal = some n } in
      let actor = record (s.actor) { signals = (new_message message s.actor.signals).1 } in
      elim (Option-cases s.ended) [
        | inl e ↦ (
          record s { to_socket = s.to_socket ++ m ∷ []; actor = actor },
          ok n,
          ground (arith, e),
          record {
            rest = c.rest ++ m ∷ [];
            all = snoc_all (kept s.actor.channel) c.rest acc m c.all;
            waits = λ x. ap (λ q. q ++ m ∷ []) (c.waits e);
            fails = λ x. absurd (x e);
            below =
                AllBelow-append c.rest (m ∷ []) (suc n) (AllBelow-suc c.rest n c.below)
                  (omega arith, tt);
          },
        )
        | inr (result, e) ↦ (
          record s { actor = actor },
          err m,
          ground (arith, e),
          record {
            rest = c.rest;
            all = c.all ∙ sym (ap (map raw_of) (append-nil acc));
            waits = λ x. absurd (ground (arith, e, x));
            fails = λ x. new_message-AllFailed message c.rest s.actor.signals c.below (c.fails x);
            below = AllBelow-suc c.rest n c.below;
          },
        )
      ]
