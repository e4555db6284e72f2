-- ===== src/Client/Connect/Discarding.antt =====
-- What becomes of the messages that the user sends while a client connects (src/client.rs).
use ezsockets.Base.{Bool, List, [], arith, none, some, subst, suc, sym, ℕ, ◌++◌, ◌∷◌, ◌≡◌}
use ezsockets.Client.{ClientConfig, ClientExt}
use ezsockets.Client.Connect.{Attempt, ClientState, attempt, client_connect, connect_from, drain}
use ezsockets.Client.Connect.GivingUp.{NoClose}
use ezsockets.Socket.Signal.{InMessage, MessageSignal, Signals, drop_message, failed, status}

drain_keeps_failed :
    (ms : List InMessage) (is_open : Bool) (s : Signals) (i : MessageSignal)
    → status s i ≡ failed
    → status (drain ms is_open s).1 i ≡ failed
unfolding drain status
drain_keeps_failed [] is_open s i h = h
drain_keeps_failed (m ∷ ms) is_open s i h =
    let dropped : status (drop_message m s) i ≡ failed = ground arith in
    ground (arith, dropped, drain_keeps_failed ms is_open (drop_message m s) i)

drain-fails :
    (before after : List InMessage) (m : InMessage) (is_open : Bool) (s : Signals)
    (i : MessageSignal)
    → NoClose before
    → m.signal ≡ some i
    → status (drain (before ++ m ∷ after) is_open s).1 i ≡ failed
unfolding drain
drain-fails [] after m is_open s i h e =
    let dropped : status (drop_message m s) i ≡ failed =
      unfold status drop_message in ground arith in
    ground (arith, dropped, drain_keeps_failed after is_open (drop_message m s) i)
drain-fails (x ∷ before) after m is_open s i h e =
    ground (arith, h.0, drain-fails before after m is_open (drop_message x s) i h.1 e)

module _ {E A K U H : Type 0} (ext : ClientExt E A) (config : ClientConfig U H) where
  attempt_signals :
      (max_attempts i : ℕ) (a : Attempt K) (st : ClientState E K)
      → (attempt ext config max_attempts i a st).0.signals ≡ (drain a.inbox a.is_open st.signals).1
  unfolding attempt
  attempt_signals max_attempts i a st = ground arith

  connect_keeps_failed :
      (max_attempts i : ℕ) (world : List (Attempt K)) (st : ClientState E K) (j : MessageSignal)
      → status st.signals j ≡ failed
      → status (connect_from ext config max_attempts i world st).0.signals j ≡ failed
  unfolding connect_from
  connect_keeps_failed max_attempts i [] st j h = h
  connect_keeps_failed max_attempts i (a ∷ world) st j h = ground (
    arith,
    attempt_signals max_attempts i a st,
    drain_keeps_failed a.inbox a.is_open st.signals j h,
    connect_keeps_failed max_attempts (suc i) world (attempt ext config max_attempts i a st).0 j,
  )

  discards_from :
      (max_attempts i : ℕ) (passed rest : List (Attempt K)) (a : Attempt K)
      (before after : List InMessage) (m : InMessage) (j : MessageSignal) (st : ClientState E K)
      → a.inbox ≡ before ++ m ∷ after
      → NoClose before
      → m.signal ≡ some j
      → (connect_from ext config max_attempts i passed st).1 ≡ none
      → status (connect_from ext config max_attempts i (passed ++ a ∷ rest) st).0.signals j ≡ failed
  unfolding connect_from
  discards_from max_attempts i [] rest a before after m j st e h s goes_on =
      let lost : status (drain a.inbox a.is_open st.signals).1 j ≡ failed =
        rw e (drain-fails before after m a.is_open st.signals j h s) in
      ground (
        arith,
        lost,
        attempt_signals max_attempts i a st,
        connect_keeps_failed max_attempts (suc i) rest (attempt ext config max_attempts i a st).0 j,
      )
  discards_from max_attempts i (p ∷ passed) rest a before after m j st e h s goes_on = ground (
    arith,
    discards_from max_attempts (suc i) passed rest a before after m j
        (attempt ext config max_attempts i p st).0 e h s,
  )

  -- A message that the user sends while the client connects is not sent later: whenever the client
  -- takes it, before a close message, its signal says `Failed` from then on, also after the client has
  -- connected or given up.
  pub client_connect-discards :
      (max_attempts : ℕ) (passed rest : List (Attempt K)) (a : Attempt K)
      (before after : List InMessage) (m : InMessage) (j : MessageSignal) (st : ClientState E K)
      → st.world ≡ passed ++ a ∷ rest
      → a.inbox ≡ before ++ m ∷ after
      → NoClose before
      → m.signal ≡ some j
      → (client_connect ext config max_attempts (record st { world = passed })).1 ≡ none
      → status (client_connect ext config max_attempts st).0.signals j ≡ failed
  unfolding client_connect
  client_connect-discards max_attempts passed rest a before after m j st w e h s goes_on =
      let st' = record st { world = [] } in
      subst
        (λ world. status (connect_from ext config max_attempts 1 world st').0.signals j ≡ failed)
        (sym w) (discards_from max_attempts 1 passed rest a before after m j st' e h s goes_on)
