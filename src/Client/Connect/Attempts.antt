-- ===== src/Client/Connect/Attempts.antt =====
-- How often and when a client connects (src/client.rs).
use ezsockets.Base.{
  List, Option, Option-cases, [], append-nil, append_assoc, arith, inl, inr, length, max, none, ok,
  replicate, some, subst, suc, sym, zero, ℕ, ◌++◌, ◌+◌, ◌-◌, ◌<◌, ◌∙◌, ◌∷◌, ◌≡◌, ◌≢◌, ◌≤◌,
}
use ezsockets.Client.{ClientConfig, ClientExt, ClientSocket}
use ezsockets.Client.Connect.{
  Attempt, ClientState, Connected, attempt, client_connect, connect_from,
}

module _ {E A K U H : Type 0} (ext : ClientExt E A) (config : ClientConfig U H) where
  attempt_connects :
      (max_attempts i : ℕ) (a : Attempt K) (st : ClientState E K)
      → (attempt ext config max_attempts i a st).0.connects ≤ suc st.connects
  unfolding attempt
  attempt_connects max_attempts i a st = ground arith

  attempt_goes_on :
      (max_attempts i : ℕ) (a : Attempt K) (st : ClientState E K)
      → (attempt ext config max_attempts i a st).1 ≡ none
      → (i < max_attempts)
        × ((attempt ext config max_attempts i a st).0.connects ≡ suc st.connects)
        × ((attempt ext config max_attempts i a st).0.slept
            ≡ st.slept ++ config.reconnect_interval ∷ [])
  unfolding attempt
  attempt_goes_on max_attempts i a st e = ground arith

  returns_from :
      (max_attempts i n : ℕ) (world : List (Attempt K)) (st : ClientState E K)
      → max_attempts ≤ i + n
      → n < length world
      → (connect_from ext config max_attempts i world st).1 ≢ none
  unfolding connect_from
  returns_from max_attempts i zero [] st h l = absurd (omega arith)
  returns_from max_attempts i (suc n) [] st h l = absurd (omega arith)
  returns_from max_attempts i zero (a ∷ world) st h l =
      ground (arith, attempt_goes_on max_attempts i a st)
  returns_from max_attempts i (suc n) (a ∷ world) st h l =
      let st' = (attempt ext config max_attempts i a st).0 in
      ground (arith, returns_from max_attempts (suc i) n world st')

  -- Once the connector has answered as many attempts as are allowed, and one at least,
  -- `client_connect` has returned.
  pub client_connect-returns :
      (max_attempts : ℕ) (st : ClientState E K)
      → 0 < length st.world
      → max_attempts ≤ length st.world
      → (client_connect ext config max_attempts st).1 ≢ none
  unfolding client_connect
  client_connect-returns max_attempts st some_attempt enough =
      returns_from max_attempts 1 (length st.world - 1) st.world (record st { world = [] })
        (omega arith) (omega arith)

  connects_from :
      (max_attempts i : ℕ) (world : List (Attempt K)) (st : ClientState E K)
      → (connect_from ext config max_attempts i world st).0.connects
        ≤ st.connects + suc (max_attempts - i)
  unfolding connect_from
  connects_from max_attempts i [] st = omega arith
  connects_from max_attempts i (a ∷ world) st = ground (
    arith,
    attempt_connects max_attempts i a st,
    attempt_goes_on max_attempts i a st,
    connects_from max_attempts (suc i) world (attempt ext config max_attempts i a st).0,
  )

  -- It calls the connector at most as often as it is allowed, and at most once if it is allowed none.
  pub client_connect-connects :
      (max_attempts : ℕ) (st : ClientState E K)
      → (client_connect ext config max_attempts st).0.connects ≤ st.connects + max 1 max_attempts
  unfolding client_connect
  client_connect-connects max_attempts st =
      omega (arith, connects_from max_attempts 1 st.world (record st { world = [] }))

  attempt_connected :
      (max_attempts i : ℕ) (a : Attempt K) (st : ClientState E K) (k : ClientSocket K)
      → (attempt ext config max_attempts i a st).1 ≡ some (ok (some k))
      → let st' = (attempt ext config max_attempts i a st).0 in
        (st'.connects ≡ suc st.connects) × (st'.slept ≡ st.slept)
  unfolding attempt
  attempt_connected max_attempts i a st k e = ground arith

  -- After so many failures the client has slept once after each, and may have one attempt more.
  abbrev pub Tried : ℕ → ClientState E K → ClientState E K → Type 0
  Tried more st st' =
      (n : ℕ) × (st'.connects ≡ st.connects + n + more)
      × (st'.slept ≡ st.slept ++ replicate n config.reconnect_interval)

  one_more :
      (more max_attempts i : ℕ) (a : Attempt K) (st st' : ClientState E K)
      → (attempt ext config max_attempts i a st).1 ≡ none
      → Tried more (attempt ext config max_attempts i a st).0 st'
      → Tried more st st'
  one_more more max_attempts i a st st' e (n, c, l) =
      let (_, c', l') = attempt_goes_on max_attempts i a st e in
      (
        suc n,
        omega (arith, c, c'),
        ground (
          arith,
          l,
          l',
          append_assoc st.slept (config.reconnect_interval ∷ [])
              (replicate n config.reconnect_interval),
        ),
      )

  goes_on :
      (max_attempts i : ℕ) (a : Attempt K) (world : List (Attempt K)) (st : ClientState E K)
      → (attempt ext config max_attempts i a st).1 ≡ none
      → connect_from ext config max_attempts i (a ∷ world) st
        ≡ connect_from ext config max_attempts
            (suc i)
            world
            (attempt ext config max_attempts i a st).0
  unfolding connect_from
  goes_on max_attempts i a world st e = ground (arith, e)

  returns_at :
      (max_attempts i : ℕ) (a : Attempt K) (world : List (Attempt K)) (st : ClientState E K)
      (r : Connected K)
      → (attempt ext config max_attempts i a st).1 ≡ some r
      → (connect_from ext config max_attempts i (a ∷ world) st).1 ≡ some r
        × ((connect_from ext config max_attempts i (a ∷ world) st).0.connects
            ≡ (attempt ext config max_attempts i a st).0.connects)
        × ((connect_from ext config max_attempts i (a ∷ world) st).0.slept
            ≡ (attempt ext config max_attempts i a st).0.slept)
  unfolding connect_from
  returns_at max_attempts i a world st r e = ground (arith, e)

  -- What is known of the attempts by what came of them so far.
  abbrev pub Pauses : ClientState E K → ClientState E K × Option (Connected K) → Type 0
  Pauses st (st', r) =
      ((k : ClientSocket K) → r ≡ some (ok (some k)) → Tried 1 st st') × (r ≡ none → Tried 0 st st')

  tries_from :
      (max_attempts i : ℕ) (world : List (Attempt K)) (st : ClientState E K)
      → Pauses st (connect_from ext config max_attempts i world st)
  unfolding connect_from
  tries_from max_attempts i [] st =
      (λ k e. absurd (ground (arith, e)), λ e. (0, omega arith, sym (append-nil st.slept)))
  tries_from max_attempts i (a ∷ world) st =
      let st1 = (attempt ext config max_attempts i a st).0 in
      elim (Option-cases (attempt ext config max_attempts i a st).1) [
        | inl e ↦
            let (links, waits) = tries_from max_attempts (suc i) world st1 in
            let run = goes_on max_attempts i a world st e in
            let st2 = (connect_from ext config max_attempts (suc i) world st1).0 in
            subst (Pauses st) (sym run) (
              λ k f. one_more 1 max_attempts i a st st2 e (links k f),
              λ f. one_more 0 max_attempts i a st st2 e (waits f),
            )
        | inr (r, e) ↦
            let (q, c, l) = returns_at max_attempts i a world st r e in
            (
              λ k f.
                  let (c', l') = attempt_connected max_attempts i a st k (e ∙ sym q ∙ f) in
                  (0, omega (arith, c, c'), l ∙ l' ∙ sym (append-nil st.slept)),
              λ f. absurd (ground (arith, q, f)),
            )
      ]

  -- When it connects, or waits for an answer, it has slept once after each failure, and not before the
  -- first attempt.
  pub client_connect-Pauses :
      (max_attempts : ℕ) (st : ClientState E K)
      → Pauses st (client_connect ext config max_attempts st)
  unfolding client_connect
  client_connect-Pauses max_attempts st =
      tries_from max_attempts 1 st.world (record st { world = [] })
