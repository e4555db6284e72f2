-- ===== src/Counter/Counting.antt =====
-- What a session of the counter posts to its client.
use ezsockets.Base.{
  List, Option, [], ap, append-nil, append_assoc, arith, none, refl, some, suc, sym, true, zero, ℕ,
  ◌++◌, ◌+◌, ◌<◌, ◌^◌, ◌∷◌, ◌≡◌,
}
use ezsockets.Counter.{
  CounterMessage, CounterSession, CounterText, counter_ext, counter_is, counter_on_call,
  counter_on_text, counting_task, echoed, increment, new_counter, share,
}
use ezsockets.Server.{usize}
use ezsockets.Session.{Branch, SessionState, session_run}
use ezsockets.Session.Handlers.{
  Request, closed_with, ending, requests, serve_all, session_run-serve_all,
}
use ezsockets.Session.Requests.{NoBinary, calls_of, texts_of}
use ezsockets.Socket.Message.{Utf8Bytes}
use ezsockets.Socket.Signal.{InRawMessage, Signals}

-- The counts, and the echoes, among what was posted.
abbrev pub counts_of : List CounterText → List ℕ
counts_of [] = []
counts_of (counter_is n ∷ ts) = n ∷ counts_of ts
counts_of (_ ∷ ts) = counts_of ts

abbrev pub echoes_of : List CounterText → List Utf8Bytes
echoes_of [] = []
echoes_of (echoed t ∷ ts) = t ∷ echoes_of ts
echoes_of (_ ∷ ts) = echoes_of ts

-- `k + 1` to `k + n`.
abbrev pub numbers : ℕ → ℕ → List ℕ
numbers k zero = []
numbers k (suc n) = (k + 1) ∷ numbers (k + 1) n

-- The counts that the calls share, and the last one.
abbrev shared : ℕ → List CounterMessage → List ℕ
shared k [] = []
shared k (increment ∷ cs) = shared (usize (k + 1)) cs
shared k (share ∷ cs) = k ∷ shared k cs

abbrev last_count : ℕ → List CounterMessage → ℕ
last_count k [] = k
last_count k (increment ∷ cs) = last_count (usize (k + 1)) cs
last_count k (share ∷ cs) = last_count k cs

counts_of-append : (xs ys : List CounterText) → counts_of (xs ++ ys) ≡ counts_of xs ++ counts_of ys
counts_of-append [] ys = refl
counts_of-append (counter_is n ∷ xs) ys = ap (λ l. n ∷ l) (counts_of-append xs ys)
counts_of-append (echoed t ∷ xs) ys = counts_of-append xs ys

echoes_of-append : (xs ys : List CounterText) → echoes_of (xs ++ ys) ≡ echoes_of xs ++ echoes_of ys
echoes_of-append [] ys = refl
echoes_of-append (counter_is n ∷ xs) ys = echoes_of-append xs ys
echoes_of-append (echoed t ∷ xs) ys = ap (λ l. t ∷ l) (echoes_of-append xs ys)

-- A state of the session after some requests.
record Served (c : CounterSession) (rs : List (Request CounterMessage)) (c' : CounterSession)
    : Type 0 where
  last : c'.counter ≡ last_count c.counter (calls_of rs)
  counts : counts_of c'.posted ≡ counts_of c.posted ++ shared c.counter (calls_of rs)
  echoes : echoes_of c'.posted ≡ echoes_of c.posted ++ texts_of rs

module _ {C : Type 0} (channel_send : C → InRawMessage → C × Option InRawMessage) where
  serves :
      (rs : List (Request CounterMessage)) (c : CounterSession)
      → NoBinary rs
      → (c' : CounterSession) × (serve_all (counter_ext true) channel_send rs (some c)
          ≡ (some c', none))
        × Served c rs c'
  unfolding counter_on_call counter_on_text
  serves [] c nb = (
    c,
    refl,
    record {
      last = refl;
      counts = sym (append-nil (counts_of c.posted));
      echoes = sym (append-nil (echoes_of c.posted));
    },
  )
  serves (Request.text t ∷ rs) c nb =
      let (c', run, s) = serves rs (record c { posted = c.posted ++ echoed t ∷ [] }) nb in
      (
        c',
        run,
        record {
          last = s.last;
          counts = ground (
            arith,
            s.counts,
            counts_of-append c.posted (echoed t ∷ []),
            append-nil (counts_of c.posted),
          );
          echoes = ground (
            arith,
            s.echoes,
            echoes_of-append c.posted (echoed t ∷ []),
            append_assoc (echoes_of c.posted) (t ∷ []) (texts_of rs),
          );
        },
      )
  serves (Request.binary bytes ∷ rs) c nb = absurd nb
  serves (Request.call increment ∷ rs) c nb =
      let (c', run, s) = serves rs (record c { counter = usize (c.counter + 1) }) nb in
      (c', run, record { last = s.last; counts = s.counts; echoes = s.echoes })
  serves (Request.call share ∷ rs) c nb =
      let (c', run, s) =
        serves rs (record c { posted = c.posted ++ counter_is c.counter ∷ [] }) nb in
      (
        c',
        run,
        record {
          last = s.last;
          counts = ground (
            arith,
            s.counts,
            counts_of-append c.posted (counter_is c.counter ∷ []),
            append_assoc (counts_of c.posted) (c.counter ∷ []) (shared c.counter (calls_of rs)),
          );
          echoes = ground (
            arith,
            s.echoes,
            echoes_of-append c.posted (counter_is c.counter ∷ []),
            append-nil (echoes_of c.posted),
          );
        },
      )

shared-counting_task :
    (k n : ℕ)
    → k + n < 2 ^ 64
    → (shared k (counting_task n) ≡ numbers k n) × (last_count k (counting_task n) ≡ k + n)
unfolding counting_task
shared-counting_task k zero h = (refl, omega arith)
shared-counting_task k (suc n) h =
    let below : usize (k + 1) ≡ k + 1 = omega arith in
    let (s, l) = shared-counting_task (k + 1) n (omega arith) in ground (arith, below, s, l)

module _ {C : Type 0} (channel_send : C → InRawMessage → C × Option InRawMessage) where
  -- A session of the counter posts every count once, in order, and an echo of each text. Run a session of
  -- the counter server by the library's loop, with a sink that takes every message, over any rounds in
  -- which its counting task has gone round `n` times and the client sends no binary message. Then no
  -- handler panics or fails, the counter is `n`, and what the session posts is the counts from 1 to
  -- `n` and an echo of each text, each in order; it ends only if it is closed.
  pub session_run-counting_task :
      (bs : List (Branch CounterMessage)) (n : ℕ) (channel : C) (signals : Signals)
      → ((c : C) (m : InRawMessage) → (channel_send c m).1 ≡ none)
      → n < 2 ^ 64
      → NoBinary (requests bs)
      → calls_of (requests bs) ≡ counting_task n
      → let st : SessionState (Option CounterSession) C = record {
        extension = some new_counter;
        channel = channel;
        signals = signals;
      } in
        let (st', r) = session_run (counter_ext true) channel_send bs st in
        (c : CounterSession) × (st'.extension ≡ some c)
        × (c.counter ≡ n)
        × (counts_of c.posted ≡ numbers 0 n)
        × (echoes_of c.posted ≡ texts_of (requests bs))
        × (r ≡ ending (counter_ext true) channel_send none (closed_with bs))
  session_run-counting_task bs n channel signals takes small nb calls =
      let st : SessionState (Option CounterSession) C = record {
        extension = some new_counter;
        channel = channel;
        signals = signals;
      } in
      let (c, run, s) = serves channel_send (requests bs) new_counter nb in
      let (e, r) = session_run-serve_all (counter_ext true) channel_send bs st takes in
      let (all, last) = shared-counting_task 0 n (omega arith) in
      (
        c,
        ground (arith, e, run),
        ground (arith, s.last, calls, last),
        ground (arith, s.counts, calls, all),
        s.echoes,
        ground (arith, r, run),
      )
