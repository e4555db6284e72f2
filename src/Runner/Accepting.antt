-- ===== src/Runner/Accepting.antt =====
-- Which connections reach the server.
use ezsockets.Base.{
  Bool, List, Option, Option-cases, [], append-nil, append_assoc, arith, err, false, if◌then◌else◌,
  inl, inr, is_err, none, not, ok, refl, some, subst, sym, true, ◌++◌, ◌∙◌, ◌∷◌, ◌≡◌,
}
use ezsockets.Client.{ClientSocket}
use ezsockets.Request.{HttpRequest}
use ezsockets.Request.Rebuilding.{pure_request_same}
use ezsockets.Runner.{
  AcceptEvent, Acceptor, Handshake, accept_round, acceptor_accept, plain, run_acceptor,
  server_accept, stalled, tcp_accepted, tcp_failed,
}
use ezsockets.Server.{NewConnection, ServerExt}
use ezsockets.Server.Drain.{then}
use ezsockets.Server.System.{Reach, System, accept, here}
use ezsockets.Socket.Heartbeat.{default_config}

abbrev pub is_secured : {V P Q K : Type 0} → Acceptor → Handshake V P Q K → Bool
is_secured plain h = true
is_secured _ h = not (is_err h.tls)

-- A connection with the socket's default configuration.
abbrev pub newcomer :
    {V K D : Type 0} → D → K × HttpRequest V → NewConnection (ClientSocket K) D (HttpRequest V)
newcomer peer (k, req) = record {
  socket = record { socket_impl = k; config = default_config };
  address = peer;
  request = req;
}

module _ {V P Q K : Type 0} (body_ok : HttpRequest V → Bool) where
  -- The connection and the request of a client whose handshakes succeed: TLS, if there is any, a request
  -- that can be rebuilt, and the websocket's own once its callback has agreed.
  abbrev pub admitted : Acceptor → Handshake V P Q K → Option (K × HttpRequest V)
  admitted acceptor h =
      if is_secured acceptor h
      then elim h.offered [
        | none ↦ none
        | some (req, resp) ↦
            if body_ok req
            then elim (h.websocket (some (ok resp))) [ ok k ↦ some (k, req) | err e ↦ none ]
            else none
      ]
      else none

  abbrev pub arrivals :
      {D : Type 0}
      → Acceptor
      → List (AcceptEvent V P Q K D)
      → List (NewConnection (ClientSocket K) D (HttpRequest V))
  arrivals acceptor [] = []
  arrivals acceptor (stalled peer ∷ es) = []
  arrivals acceptor (tcp_failed ∷ es) = arrivals acceptor es
  arrivals acceptor (tcp_accepted peer h ∷ es) = elim (admitted acceptor h) [
    | none ↦ arrivals acceptor es
    | some p ↦ newcomer peer p ∷ arrivals acceptor es
  ]

module _ {E I A D V P Q K : Type 0} (body_ok : HttpRequest V → Bool) (refusal : Q)
    (acceptor : Acceptor) (ext : ServerExt E I A (ClientSocket K) D (HttpRequest V)) where
  -- A round offers the server the connection, if the client is admitted.
  accept_round_lem :
      (peer : D) (h : Handshake V P Q K) (s : System E I A (ClientSocket K) D (HttpRequest V))
      → s.exited ≡ false
      → accept_round body_ok refusal acceptor (tcp_accepted peer h) s
        ≡ elim (admitted body_ok acceptor h) [
          | none ↦ s
          | some p ↦ record s { connections = s.connections ++ newcomer peer p ∷ [] }
        ]
  unfolding accept_round acceptor_accept server_accept
  accept_round_lem peer h s x = elim (Option-cases h.offered) [
    | inl e ↦ ground (arith, x)
    | inr ((req, resp), e) ↦ ground (arith, x, pure_request_same req)
  ]

  abbrev HasArrived :
      List (AcceptEvent V P Q K D)
      → (s t : System E I A (ClientSocket K) D (HttpRequest V))
      → List (NewConnection (ClientSocket K) D (HttpRequest V))
      → Type 0
  HasArrived es s t cs =
      let s' = run_acceptor body_ok refusal acceptor es t in
      (s'.connections ≡ s.connections ++ cs) × Reach ext s s'

  HasArrived-equal :
      (es : List (AcceptEvent V P Q K D)) (s t t' : System E I A (ClientSocket K) D (HttpRequest V))
      → t' ≡ t
      → (cs cs' : List (NewConnection (ClientSocket K) D (HttpRequest V))) → cs' ≡ cs
      → HasArrived es s t cs
      → HasArrived es s t' cs'
  HasArrived-equal es s t t' same cs cs' all a =
      subst (λ u. HasArrived es s u cs') (sym same) (subst (λ l. HasArrived es s t l) (sym all) a)

  -- A client whose handshake fails does not stop the others, but one that never ends it does. While the
  -- server's actor is there, whatever the acceptor, its queue receives exactly the connections of the
  -- clients whose handshakes succeed, TLS included if there is any, in the order in which they came,
  -- whatever failed between them, up to the first client that stalls in a handshake; while that one is
  -- awaited, nothing behind it arrives. Each comes with its address, the default configuration and the
  -- very request that was read, and arrives by a step of the system.
  pub run_acceptor-arrivals :
      (es : List (AcceptEvent V P Q K D)) (s : System E I A (ClientSocket K) D (HttpRequest V))
      → s.exited ≡ false
      → let s' = run_acceptor body_ok refusal acceptor es s in
        (s'.connections ≡ s.connections ++ arrivals body_ok acceptor es) × Reach ext s s'
  unfolding run_acceptor accept_round
  run_acceptor-arrivals [] s x = (sym (append-nil s.connections), here)
  run_acceptor-arrivals (stalled peer ∷ es) s x = (sym (append-nil s.connections), here)
  run_acceptor-arrivals (tcp_failed ∷ es) s x = run_acceptor-arrivals es s x
  run_acceptor-arrivals (tcp_accepted peer h ∷ es) s x =
      let s' = accept_round body_ok refusal acceptor (tcp_accepted peer h) s in
      let all = arrivals body_ok acceptor (tcp_accepted peer h ∷ es) in
      let offered = accept_round_lem peer h s x in
      elim (Option-cases (admitted body_ok acceptor h)) [
        | inl e ↦
            HasArrived-equal es s s s' (ground (arith, offered, e)) (arrivals body_ok acceptor es)
              all (ground (arith, e)) (run_acceptor-arrivals es s x)
        | inr (p, e) ↦
            let c = newcomer peer p in
            let s1 = record s { connections = s.connections ++ c ∷ [] } in
            let (q, reach) = run_acceptor-arrivals es s1 x in
            HasArrived-equal es s s1 s' (ground (arith, offered, e))
              (c ∷ arrivals body_ok acceptor es) all (ground (arith, e))
              (
                q ∙ append_assoc s.connections (c ∷ []) (arrivals body_ok acceptor es),
                (then) ext (accept c x refl) reach,
              )
      ]
