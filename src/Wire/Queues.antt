-- ===== src/Wire/Queues.antt =====
-- Connections and channels as lists that take everything, for the examples.
use ezsockets.Base.{Bool, List, Option, Result, [], false, none, ok, ℕ, ◌++◌, ◌∷◌}
use ezsockets.Error.{WsError}
use ezsockets.Socket.Message.{Message}
use ezsockets.Socket.Signal.{InRawMessage, Signals}
use ezsockets.Tungstenite.{TungsteniteMessage}

abbrev pub put :
    List (TungsteniteMessage ℕ)
    → TungsteniteMessage ℕ
    → List (TungsteniteMessage ℕ) × Result (Unit {0}) WsError
put s m = (s ++ m ∷ [], ok tt)

abbrev pub enqueue :
    List (Result Message WsError) → Result Message WsError → List (Result Message WsError) × Bool
enqueue c m = (c ++ m ∷ [], false)

abbrev pub keep : List InRawMessage → InRawMessage → List InRawMessage × Option InRawMessage
keep c m = (c ++ m ∷ [], none)

abbrev pub no_signals : Signals
no_signals = record { allocated = 0; cell = λ i. 0 }
