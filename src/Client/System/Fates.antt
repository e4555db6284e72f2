-- ===== src/Client/System/Fates.antt =====
-- What becomes of the messages that the handles of a client post (src/client.rs).
use ezsockets.Base.{
  Among, Bool-cases, List, [], arith, inl, inr, none, refl, some, subst, true, ℕ, ◌<◌, ◌∷◌, ◌≡◌,
  ◌≤◌, ◌⊎◌,
}
use ezsockets.Client.Connect.{closed_itself, drain, is_close}
use ezsockets.Client.System.{ClientSystem, left_over}
use ezsockets.Session.Failing.{HasFailed, drop_message-HasFailed, keeps_HasFailed}
use ezsockets.Socket.Signal.{InMessage, Signals, drop_message}

-- A socket took it, or its signal reads `Failed`, or it waits in the client's channel.
abbrev pub Fate : {E A K : Type 0} → ClientSystem E A K → InMessage → Type 0
Fate s m = Among m s.handed ⊎ HasFailed m s.state.signals ⊎ Among m s.to_socket

abbrev pub IsBelow : InMessage → ℕ → Type 0
IsBelow m n = elim m.signal [ none ↦ Unit {0} | some i ↦ i < n ]

-- From one state to the next: a message whose signal is a cell keeps a fate.
pub record Follows {E A K : Type 0} (s t : ClientSystem E A K) : Type 0 where
  pub grows : s.state.signals.allocated ≤ t.state.signals.allocated
  pub fate : (m : InMessage) → IsBelow m s.state.signals.allocated → Fate s m → Fate t m
  pub world : t.state.world ≡ []

pub drain-keeps :
    (ms : List InMessage) (m : InMessage) (s : Signals)
    → HasFailed m s
    → HasFailed m (drain ms true s).1
unfolding drain
drain-keeps [] m s h = h
drain-keeps (y ∷ ms) m s h = elim (Bool-cases (is_close y.message)) [
  | inl e ↦ rw e (keeps_HasFailed m y s h)
  | inr e ↦ rw e (drain-keeps ms m (drop_message y s) (keeps_HasFailed m y s h))
]

-- The drain fails what it takes, and leaves what follows a close message.
pub drain-Among :
    (ms : List InMessage) (m : InMessage) (s : Signals)
    → Among m ms
    → HasFailed m (drain ms true s).1
      ⊎ (((drain ms true s).0 ≡ closed_itself) × Among m (left_over ms))
unfolding drain left_over
drain-Among [] m s h = absurd h
drain-Among (y ∷ ms) m s (inl e) =
    let dead : HasFailed m (drop_message y s) =
      subst (λ x. HasFailed m (drop_message x s)) e (drop_message-HasFailed m s) in
    elim (Bool-cases (is_close y.message)) [
      | inl c ↦ rw c (inl dead)
      | inr c ↦ rw c (inl (drain-keeps ms m (drop_message y s) dead))
    ]
drain-Among (y ∷ ms) m s (inr h) = elim (Bool-cases (is_close y.message)) [
  | inl c ↦ rw c (inr (refl, h))
  | inr c ↦ rw c (drain-Among ms m (drop_message y s) h)
]

pub allocated-drain :
    (ms : List InMessage) (s : Signals) → (drain ms true s).1.allocated ≡ s.allocated
unfolding drain drop_message
allocated-drain [] s = refl
allocated-drain (m ∷ ms) s = ground (arith, allocated-drain ms (drop_message m s))
