-- ===== src/Client/Connect/GivingUp.antt =====
-- How a client gives up on a server that cannot be reached (src/client.rs).
use ezsockets.Base.{
  List, Result-cases, [], append-nil, append_assoc, arith, err, false, if◌then◌else◌, inl, inr,
  is_err, leb, length, max, none, ok, refl, replicate, some, suc, true, zero, ℕ, ◌++◌, ◌+◌, ◌-◌,
  ◌<◌, ◌∷◌, ◌≡◌, ◌≤◌,
}
use ezsockets.Client.{ClientConfig, ClientExt, reconnect}
use ezsockets.Client.Connect.{
  Attempt, ClientState, attempt, client_connect, connect_from, drain, emptied, is_close,
}
use ezsockets.Error.{Error, WsError}
use ezsockets.Socket.Signal.{InMessage, Signals, drop_message}

-- Nobody closes the client while it connects, and the connector fails.
abbrev pub NoClose : List InMessage → Type 0
NoClose [] = Unit {0}
NoClose (m ∷ ms) = (is_close m.message ≡ false) × NoClose ms

abbrev pub Unreachable : {K : Type 0} → List (Attempt K) → Type 0
Unreachable [] = Unit {0}
Unreachable (a ∷ world) =
    NoClose a.inbox × (a.is_open ≡ true) × (is_err a.result ≡ true) × Unreachable world

pub drain-emptied : (ms : List InMessage) (s : Signals) → NoClose ms → (drain ms true s).0 ≡ emptied
unfolding drain
drain-emptied [] s h = refl
drain-emptied (m ∷ ms) s h = ground (arith, h.0, drain-emptied ms (drop_message m s) h.1)

module _ {E A K U H : Type 0} (ext : ClientExt E A) (config : ClientConfig U H) where
  attempt_fails :
      (max_attempts i : ℕ) (a : Attempt K) (st : ClientState E K)
      → ((x : E) (e : WsError) → (ext.on_connect_fail x e).1 ≡ ok reconnect)
      → NoClose a.inbox
      → a.is_open ≡ true
      → (e : WsError) → a.result ≡ err e
      → let (st', r) = attempt ext config max_attempts i a st in
        (r ≡ (if leb max_attempts i then some (err (Error.failed_to_connect i)) else none))
        × (st'.connects ≡ suc st.connects)
        × (st'.slept
            ≡ (if leb max_attempts i then st.slept else st.slept ++ config.reconnect_interval ∷ []))
  unfolding attempt
  attempt_fails max_attempts i a st retries quiet opened e fails =
      let d : (drain a.inbox a.is_open st.signals).0 ≡ emptied =
        rw opened (drain-emptied a.inbox st.signals quiet) in
      ground (arith, d, retries st.extension e)

  gives_up_from :
      (max_attempts i n : ℕ) (world : List (Attempt K)) (st : ClientState E K)
      → ((x : E) (e : WsError) → (ext.on_connect_fail x e).1 ≡ ok reconnect)
      → Unreachable world
      → n < length world
      → max_attempts ≤ i + n
      → (0 < n → i + n ≤ max_attempts)
      → let (st', r) = connect_from ext config max_attempts i world st in
        (r ≡ some (err (Error.failed_to_connect (i + n))))
        × (st'.connects ≡ st.connects + suc n)
        × (st'.slept ≡ st.slept ++ replicate n config.reconnect_interval)
  unfolding connect_from
  gives_up_from max_attempts i n [] st retries u l hi lo = absurd (omega arith)
  gives_up_from max_attempts i zero (a ∷ world) st retries u l hi lo =
      elim (Result-cases a.result) [
        | inl (k, e) ↦ absurd (ground arith)
        | inr (e, f) ↦
            ground
              (arith, append-nil st.slept, attempt_fails max_attempts i a st retries u.0 u.1 e f)
      ]
  gives_up_from max_attempts i (suc n) (a ∷ world) st retries u l hi lo =
      elim (Result-cases a.result) [
        | inl (k, e) ↦ absurd (ground arith)
        | inr (e, f) ↦ ground (
          arith,
          append_assoc st.slept (config.reconnect_interval ∷ [])
              (replicate n config.reconnect_interval),
          attempt_fails max_attempts i a st retries u.0 u.1 e f,
          gives_up_from max_attempts (suc i) n world (attempt ext config max_attempts i a st).0
              retries u.3,
        )
      ]

  -- If nobody closes the client, every attempt fails and the extension keeps asking for another, the
  -- client gives up after exactly the attempts that it is allowed, and after one if it is allowed
  -- none. The error names their number, and between any two attempts it slept the interval.
  pub client_connect-gives_up :
      (max_attempts : ℕ) (st : ClientState E K)
      → ((x : E) (e : WsError) → (ext.on_connect_fail x e).1 ≡ ok reconnect)
      → Unreachable st.world
      → max 1 max_attempts ≤ length st.world
      → let (st', r) = client_connect ext config max_attempts st in
        (r ≡ some (err (Error.failed_to_connect (max 1 max_attempts))))
        × (st'.connects ≡ st.connects + max 1 max_attempts)
        × (st'.slept ≡ st.slept ++ replicate (max_attempts - 1) config.reconnect_interval)
  unfolding client_connect
  client_connect-gives_up max_attempts st retries u l =
      let tries : 1 + (max_attempts - 1) ≡ max 1 max_attempts = omega arith in
      let g =
        gives_up_from max_attempts 1 (max_attempts - 1) st.world (record st { world = [] }) retries
          u (omega arith) (omega arith) (λ h. omega arith) in
      (rw tries at (g.0), omega (arith, g.1), g.2)
