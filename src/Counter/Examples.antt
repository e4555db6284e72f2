-- ===== src/Counter/Examples.antt =====
-- A session that counts to two, and hears a text in between.
use ezsockets.Base.{List, Option, [], arith, none, ok, refl, some, true, ℕ, ◌+◌, ◌∷◌, ◌≡◌}
use ezsockets.Counter.{
  CounterMessage, CounterSession, counter_ext, counting_task, increment, new_counter, share,
}
use ezsockets.Counter.Counting.{counts_of, echoes_of, session_run-counting_task}
use ezsockets.Session.{Branch, SessionState, session_run}
use ezsockets.Socket.Message.{Message}
use ezsockets.Socket.Signal.{InRawMessage, Signals}

abbrev takes_all : ℕ → InRawMessage → ℕ × Option InRawMessage
takes_all c m = (c + 1, none)

abbrev no_signals : Signals
no_signals = record { allocated = 0; cell = λ i. 0 }

abbrev two_seconds : List (Branch CounterMessage)
two_seconds =
    Branch.called increment
    ∷ Branch.incoming (some (ok (Message.text "hello")))
    ∷ Branch.outgoing (record { message = some (Message.text "hello"); signal = none })
    ∷ Branch.called share
    ∷ Branch.called increment
    ∷ Branch.called share
    ∷ Branch.incoming none
    ∷ []

session_run-counting_task_example :
    let st : SessionState (Option CounterSession) ℕ = record {
      extension = some new_counter;
      channel = 0;
      signals = no_signals;
    } in
    let (st', r) = session_run (counter_ext true) takes_all two_seconds st in
    (c : CounterSession) × (st'.extension ≡ some c)
    × (c.counter ≡ 2)
    × (counts_of c.posted ≡ 1 ∷ 2 ∷ [])
    × (echoes_of c.posted ≡ "hello" ∷ [])
    × (r ≡ some (ok none))
unfolding counting_task
session_run-counting_task_example =
    session_run-counting_task takes_all two_seconds 2 0 no_signals (λ c m. refl) (omega arith) tt
      refl
