-- ===== src/Client/Actor/Reconnecting.antt =====
-- When a client's actor reconnects, and how long it waits before (src/client.rs).
use ezsockets.Base.{
  List, Option, Result, [], arith, err, none, ok, replicate, some, ℕ, ◌++◌, ◌+◌, ◌∷◌, ◌≡◌,
}
use ezsockets.Client.{ClientCloseMode, ClientConfig, ClientExt, ClientSocket, reconnect}
use ezsockets.Client.Actor.{on_mode, client_step, handle_close, handle_disconnect, incoming}
use ezsockets.Client.Connect.{ClientState}
use ezsockets.Client.Connect.Attempts.{Pauses, client_connect-Pauses}
use ezsockets.Error.{Error, WsError}
use ezsockets.Socket.Message.{Message}

-- What ends a connection: the server's close message, an error of the stream, or its end.
abbrev pub Lost : Option (Result Message WsError) → Type 0
Lost none = Unit {0}
Lost (some (err e)) = Unit {0}
Lost (some (ok (Message.close f))) = Unit {0}
Lost (some (ok m)) = ⊥

-- What the client sleeps before its first attempt: the interval after a close message.
abbrev pub first_pause :
    {U H : Type 0} → ClientConfig U H → Option (Result Message WsError) → List ℕ
first_pause config (some (ok m)) = config.reconnect_interval ∷ []
first_pause config _ = []

module _ {E A K U H : Type 0} (ext : ClientExt E A) (config : ClientConfig U H) where
  reconnected :
      (pause : List ℕ) (st : ClientState E K) (mode : E × Result ClientCloseMode Error)
      → Pauses ext config
          (record st { slept = st.slept ++ pause })
          (on_mode ext config pause st mode)
  unfolding on_mode
  reconnected pause st (x, err f) =
      (λ k g. absurd (ground (arith, g)), λ g. absurd (ground (arith, g)))
  reconnected pause st (x, ok ClientCloseMode.close) =
      (λ k g. absurd (ground (arith, g)), λ g. absurd (ground (arith, g)))
  reconnected pause st (x, ok reconnect) =
      let st1 = record st { extension = x; slept = st.slept ++ pause } in
      client_connect-Pauses ext config config.max_reconnect_attempts st1

  -- How the client pauses once its connection is lost. After the server's close message it sleeps the
  -- interval before every attempt, the first one included: while it waits for the answer to an attempt
  -- after `n` that failed, it has slept the interval `n + 1` times, and when it is connected by the
  -- attempt after `n` that failed, no more often. After an error of the stream, or its end, the first
  -- attempt is made at once: it has slept the interval `n` times then.
  pub client_step_reconnects :
      (message : Option (Result Message WsError)) (socket : ClientSocket K) (st : ClientState E K)
      → Lost message
      → let (st', r) = client_step ext config (incoming message) socket st in
        ((k : ClientSocket K)
          → r ≡ some (ok (some k))
          → (n : ℕ) × (st'.connects ≡ st.connects + n + 1)
            × (st'.slept
                ≡ st.slept ++ first_pause config message ++ replicate n config.reconnect_interval))
        × (r ≡ none
            → (n : ℕ) × (st'.connects ≡ st.connects + n + 0)
              × (st'.slept
                  ≡ st.slept
                    ++ first_pause config message
                    ++ replicate n config.reconnect_interval))
  unfolding client_step handle_close handle_disconnect
  client_step_reconnects none socket st l = reconnected [] st (ext.on_disconnect st.extension)
  client_step_reconnects (some (err e)) socket st l =
      reconnected [] st (ext.on_disconnect st.extension)
  client_step_reconnects (some (ok (Message.close f))) socket st l =
      reconnected (config.reconnect_interval ∷ []) st (ext.on_close st.extension f)
  client_step_reconnects (some (ok (Message.text t))) socket st l = absurd l
  client_step_reconnects (some (ok (Message.binary bytes))) socket st l = absurd l
