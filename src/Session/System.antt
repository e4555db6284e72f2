-- ===== src/Session/System.antt =====
-- A session among its handles (src/session.rs): the two channels from the handles to the actor, the
-- rounds of the actor's `select!`, and the end, at which the actor's receivers are dropped. Tokio's
-- unbounded channels are queues that fail once their receiver is gone.
use ezsockets.Base.{
  Bool, List, Option, Result, [], false, if◌then◌else◌, none, some, true, ◌++◌, ◌∷◌,
}
use ezsockets.Error.{WsError}
use ezsockets.Handle.{post}
use ezsockets.Session.{
  Branch, CloseResult, Poll, Polls, SessionExt, SessionState, called, incoming, outgoing, pending,
  ready, select, session_step,
}
use ezsockets.Session.Calls.{send_call}
use ezsockets.Socket.Message.{Message}
use ezsockets.Socket.Signal.{InMessage, InRawMessage, MessageSignal, Signals, drop_message}

-- What happens in turn: a handle posts a message or makes a call, or the actor goes round its loop,
-- where its socket's stream polls as given. Some handle is always there, so that an empty channel waits.
pub data SessionMove (A : Type 0) : Type 0 where
  posts : Message → SessionMove A
  makes_call : A → SessionMove A
  goes_round : Poll (Option (Result Message WsError)) → SessionMove A

pub record SessionSystem (E A C : Type 0) : Type 0 where
  pub actor : SessionState E C
  pub to_socket : List InMessage
  pub calls : List A
  -- What the actor has returned.
  pub ended : Option CloseResult

-- `UnboundedSender::send`, which gives the message back once the channel is closed.
abbrev pub enqueue : {X : Type 0} → Bool → List X → X → List X × Option X
enqueue true queue x = (queue ++ x ∷ [], none)
enqueue false queue x = (queue, some x)

abbrev pub poll_queue : {X : Type 0} → List X → Poll (Option X)
poll_queue [] = pending
poll_queue (x ∷ queue) = ready (some x)

abbrev pub tail : {X : Type 0} → List X → List X
tail [] = []
tail (x ∷ queue) = queue

-- The messages of a channel whose receiver is dropped.
unfoldable pub drop_all : List InMessage → Signals → Signals
unfolding drop_message
drop_all [] s = s
drop_all (m ∷ ms) s = drop_all ms (drop_message m s)

module _ {E A C : Type 0} where
  -- `Session::alive`: both receivers go with the actor.
  unfoldable pub alive : SessionSystem E A C → Bool
  alive s = elim s.ended [ none ↦ true | some r ↦ false ]

  -- `text`, `binary` and `close` of a handle; `none` is the panic of `unwrap`.
  unfoldable pub handle_post :
      Message → SessionSystem E A C → Option (SessionSystem E A C × Result MessageSignal InMessage)
  unfolding alive
  handle_post message s = elim (post (enqueue (alive s)) message s.to_socket s.actor.signals) [
    | none ↦ none
    | some (queue, signals, r) ↦
        some (record s { to_socket = queue; actor = record (s.actor) { signals = signals } }, r)
  ]

  -- `Session::call`.
  unfoldable pub handle_call : A → SessionSystem E A C → SessionSystem E A C × Result (Unit {0}) A
  unfolding alive
  handle_call a s =
      let (queue, r) = send_call (enqueue (alive s)) a s.calls in (record s { calls = queue }, r)

  -- The branch that is taken has received from its channel.
  unfoldable pub receive : Branch A → SessionSystem E A C → SessionSystem E A C
  receive (outgoing m) s = record s { to_socket = tail s.to_socket }
  receive (called a) s = record s { calls = tail s.calls }
  receive (incoming r) s = s

  -- When `run` returns, the actor is dropped with what its channels still hold.
  unfoldable pub after_step :
      SessionState E C × Option CloseResult → SessionSystem E A C → SessionSystem E A C
  unfolding drop_all
  after_step (actor, none) s = record s { actor = actor }
  after_step (actor, some result) s = record s {
    actor = record actor { signals = drop_all s.to_socket actor.signals };
    to_socket = [];
    calls = [];
    ended = some result;
  }

module _ {E A C : Type 0} (ext : SessionExt E A)
    (channel_send : C → InRawMessage → C × Option InRawMessage) where
  unfoldable pub take_branch : Option (Branch A) → SessionSystem E A C → SessionSystem E A C
  unfolding receive after_step
  take_branch none s = s
  take_branch (some b) s = after_step (session_step ext channel_send b s.actor) (receive b s)

  -- A round of the loop of `SessionActor::run`.
  unfoldable pub actor_round :
      Poll (Option (Result Message WsError)) → SessionSystem E A C → SessionSystem E A C
  unfolding take_branch alive select
  actor_round socket_recv s =
      let polls : Polls A = record {
        to_socket = poll_queue s.to_socket;
        session_call = poll_queue s.calls;
        socket_recv = socket_recv;
      } in
      if alive s then take_branch (select polls) s else s

  -- Any interleaving of them.
  unfoldable pub session_moves : List (SessionMove A) → SessionSystem E A C → SessionSystem E A C
  session_moves [] s = s
  session_moves (SessionMove.posts message ∷ ms) s = elim (handle_post message s) [
    | none ↦ s
    | some (s', r) ↦ session_moves ms s'
  ]
  session_moves (makes_call a ∷ ms) s = session_moves ms (handle_call a s).0
  session_moves (goes_round p ∷ ms) s = session_moves ms (actor_round p s)
