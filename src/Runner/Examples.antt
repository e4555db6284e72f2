-- ===== src/Runner/Examples.antt =====
-- Five clients over TLS: the second fails its TLS handshake, the third its TCP connection, the request of
-- the fourth cannot be rebuilt.
use ezsockets.Base.{Bool, List, Option, Result, [], err, none, ok, refl, some, ℕ, ◌==◌, ◌∷◌, ◌≡◌}
use ezsockets.Client.{ClientSocket}
use ezsockets.Error.{Error}
use ezsockets.Request.{HttpRequest}
use ezsockets.Runner.{AcceptEvent, Handshake, native_tls, run_acceptor, tcp_accepted, tcp_failed}
use ezsockets.Runner.Accepting.{newcomer, run_acceptor-arrivals}
use ezsockets.Server.{ServerExt}
use ezsockets.Server.System.{Reach, start}
use ezsockets.Upgrade.{HeaderName, get}

abbrev nobody : ServerExt ℕ ℕ ℕ (ClientSocket ℕ) ℕ (HttpRequest ℕ)
nobody = record {
  on_connect = λ e s r d. (e, err none);
  on_disconnect = λ e id result. (e, ok tt);
  on_call = λ e a. (e, ok tt);
}

abbrev asks : ℕ → HttpRequest ℕ
asks v = record {
  head = record {
    uri = 47 ∷ [];
    request_method = get;
    request_headers = (HeaderName.host, 120 ∷ []) ∷ [];
  };
  version = v;
}

-- The websocket handshake succeeds if the callback was called and agreed.
abbrev opens : ℕ → Option (Result ℕ ℕ) → Result ℕ Error
opens k (some (ok resp)) = ok k
opens k _ = err (Error.handler 2)

abbrev shakes : Result (Unit {0}) Error → ℕ → ℕ → Handshake ℕ ℕ ℕ ℕ
shakes secured k v = record { tls = secured; offered = some (asks v, 0); websocket = opens k }

abbrev five_clients : List (AcceptEvent ℕ ℕ ℕ ℕ ℕ)
five_clients =
    tcp_accepted 80 (shakes (ok tt) 1 11)
    ∷ tcp_accepted 81 (shakes (err (Error.handler 0)) 2 11)
    ∷ tcp_failed
    ∷ tcp_accepted 83 (shakes (ok tt) 4 9)
    ∷ tcp_accepted 84 (shakes (ok tt) 5 11)
    ∷ []

abbrev is_eleven : HttpRequest ℕ → Bool
is_eleven r = r.version == 11

run_acceptor-arrivals_example :
    let s = run_acceptor is_eleven 0 native_tls five_clients (start nobody 0) in
    (s.connections ≡ newcomer 80 (1, asks 11) ∷ newcomer 84 (5, asks 11) ∷ [])
    × Reach nobody (start nobody 0) s
run_acceptor-arrivals_example =
    run_acceptor-arrivals is_eleven 0 native_tls nobody five_clients (start nobody 0) refl
