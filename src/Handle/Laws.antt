-- ===== src/Handle/Laws.antt =====
-- What the caller of `text`, `binary` and `close` gets back.
use ezsockets.Base.{
  Option, Option-cases, arith, err, if◌then◌else◌, inl, inr, ok, refl, some, ◌==◌, ◌≡◌, ◌⊎◌,
}
use ezsockets.Handle.{map_signal, Posted, post}
use ezsockets.Socket.Message.{Message}
use ezsockets.Socket.Signal.{
  InMessage, MessageSignal, Signals, drop_message, failed, new_message, sending, status,
}

-- The channel gives back the message that it does not take.
abbrev pub GivesBack : {C : Type 0} → (C → InMessage → C × Option InMessage) → Type 0
GivesBack {C} channel_send = (c : C) (m m' : InMessage) → (channel_send c m).1 ≡ some m' → m' ≡ m

module _ {C : Type 0} (channel_send : C → InMessage → C × Option InMessage) where
  -- With a channel that gives back what it does not take: a call never panics and hands the message to the channel. If the channel takes it, the caller gets
  -- that message's own signal, a new one that reads `Sending`, with every other signal unchanged; if
  -- not, the message comes back as it was, and its drop marks the signal as failed.
  pub post_lem :
      (message : Message) (c : C) (s : Signals)
      → GivesBack channel_send
      → let (m, s1) = new_message message s in
        (p : Posted C) × (post channel_send message c s ≡ some p)
        × (p.0 ≡ (channel_send c m).0)
        × (((j : MessageSignal)
            → status p.1 j ≡ (if s.allocated == j then sending else status s j)))
        × (((p.2 ≡ ok s.allocated) × (m.signal ≡ some s.allocated))
            ⊎ ((p.2 ≡ err m) × (status (drop_message m p.1) s.allocated ≡ failed)))
  unfolding post status drop_message
  post_lem message c s h =
      let (m, s1) = new_message message s in
      let (c', r) = channel_send c m in
      (
        (c', s1, map_signal s.allocated r),
        refl,
        refl,
        λ j. ground arith,
        elim (Option-cases (channel_send c (new_message message s).0).1) [
          | inl e ↦ ground arith
          | inr (m', e) ↦ ground (arith, h c (new_message message s).0 m' e)
        ],
      )
