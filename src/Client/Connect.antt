-- ===== src/Client/Connect.antt =====
-- `client_connect` of src/client.rs. What the user's channel holds and what the connector answers at
-- each attempt come from outside.
pub mod Attempts
pub mod GivingUp
pub mod Discarding
use ezsockets.Base.{
  Bool, List, Option, Result, [], err, false, if◌then◌else◌, leb, none, ok, some, suc, true, ℕ,
  ◌++◌, ◌∷◌,
}
use ezsockets.Client.{ClientCloseMode, ClientConfig, ClientExt, ClientSocket, reconnect}
use ezsockets.Error.{Error, WsError}
use ezsockets.Server.Drain.{then}
use ezsockets.Socket.Heartbeat.{default_config}
use ezsockets.Socket.Message.{Message}
use ezsockets.Socket.Signal.{InMessage, Signals, drop_message}

-- One attempt: the messages that `try_recv` yields in turn, whether it then says `Empty` (else
-- `Closed`), and the result of `connect`.
pub record Attempt (K : Type 0) : Type 0 where
  pub inbox : List InMessage
  pub is_open : Bool
  pub result : Result K WsError

-- The client: its extension, the signals, the attempts to come, the number of calls of `connect` and
-- the sleeps so far, oldest first.
pub record ClientState (E K : Type 0) : Type 0 where
  pub extension : E
  pub signals : Signals
  pub world : List (Attempt K)
  pub connects : ℕ
  pub slept : List ℕ

-- How the inner loop ends.
pub data Drained : Type 0 where
  emptied closed_itself died : Drained

-- Whether a message of the user is `Some(Message::Close(_))`.
unfoldable pub is_close : Option Message → Bool
is_close (some (Message.close f)) = true
is_close _ = false

-- The inner loop; a message that it takes is dropped.
unfoldable pub drain : List InMessage → Bool → Signals → Drained × Signals
unfolding is_close drop_message
drain [] is_open s = (if is_open then emptied else died, s)
drain (m ∷ ms) is_open s =
    let rest = drain ms is_open (drop_message m s) in
    if is_close m.message then (closed_itself, drop_message m s) else rest

-- What `client_connect` returns.
abbrev pub Connected : Type 0 → Type 0
Connected K = Result (Option (ClientSocket K)) Error

module _ {E A K U H : Type 0} (ext : ClientExt E A) (config : ClientConfig U H) where
  socket_of : K → ClientSocket K
  unfolding default_config
  socket_of k = record {
    socket_impl = k;
    config = elim config.socket_config [ none ↦ default_config | some c ↦ c ];
  }

  -- `client.on_connect().await?` and the socket.
  on_connected :
      K → ClientState E K → E × Result (Unit {0}) Error → ClientState E K × Option (Connected K)
  unfolding socket_of
  on_connected k st (extension, ok _) =
      (record st { extension = extension }, some (ok (some (socket_of k))))
  on_connected k st (extension, err e) = (record st { extension = extension }, some (err e))

  -- `client.on_connect_fail(…).await?`, the test of the attempts and the sleep.
  on_failed :
      ℕ
      → ℕ
      → ClientState E K
      → E × Result ClientCloseMode Error
      → ClientState E K × Option (Connected K)
  on_failed max_attempts i st (extension, err e) =
      (record st { extension = extension }, some (err e))
  on_failed max_attempts i st (extension, ok ClientCloseMode.close) =
      (record st { extension = extension }, some (ok none))
  on_failed max_attempts i st (extension, ok reconnect) =
      if leb max_attempts i
      then (record st { extension = extension }, some (err (Error.failed_to_connect i)))
      else (
        record st { extension = extension; slept = st.slept ++ config.reconnect_interval ∷ [] },
        none,
      )

  unfoldable pub on_result :
      ℕ → ℕ → Result K WsError → ClientState E K → ClientState E K × Option (Connected K)
  unfolding on_connected on_failed
  on_result max_attempts i (ok k) st = on_connected k st (ext.on_connect st.extension)
  on_result max_attempts i (err e) st =
      on_failed max_attempts i st (ext.on_connect_fail st.extension e)

  on_drained :
      ℕ → ℕ → Drained → Result K WsError → ClientState E K → ClientState E K × Option (Connected K)
  unfolding on_result
  on_drained max_attempts i emptied result st =
      on_result max_attempts i result (record st { connects = suc st.connects })
  on_drained max_attempts i closed_itself result st = (st, some (ok none))
  on_drained max_attempts i died result st =
      (st, some (err (Error.text "client died while trying to connect")))

  -- The body of the loop at the attempt `i`; `none` goes on with the next.
  unfoldable pub attempt :
      ℕ → ℕ → Attempt K → ClientState E K → ClientState E K × Option (Connected K)
  unfolding on_drained drain
  attempt max_attempts i a st =
      let (d, signals) = drain a.inbox a.is_open st.signals in
      on_drained max_attempts i d a.result (record st { signals = signals })

  -- The loop from the attempt `i` on; `none` while it waits for the connector.
  unfoldable pub connect_from :
      ℕ → ℕ → List (Attempt K) → ClientState E K → ClientState E K × Option (Connected K)
  connect_from max_attempts i [] st = (st, none)
  connect_from max_attempts i (a ∷ world) st =
      let (st', r) = attempt max_attempts i a st in
      elim r [
        | none ↦ connect_from max_attempts (suc i) world st'
        | some res ↦ (record st' { world = world }, some res)
      ]

  -- `client_connect`, which uses up the attempts to come.
  unfoldable pub client_connect : ℕ → ClientState E K → ClientState E K × Option (Connected K)
  unfolding connect_from
  client_connect max_attempts st = connect_from max_attempts 1 st.world (record st { world = [] })
