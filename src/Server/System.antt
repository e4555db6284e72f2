-- ===== src/Server/System.antt =====
-- The server actor of src/server.rs among its four channels, its callers and its session tasks.
use ezsockets.Base.{
  Bool, List, Option, [], false, none, some, true, ℕ, ◌++◌, ◌+◌, ◌<◌, ◌^◌, ◌∷◌, ◌≡◌,
}
use ezsockets.Server.{
  NewConnection, ServerEvent, ServerExt, ServerState, called, connected, disconnected, drain_acks,
  is_done, server_step, shutdown,
}
use ezsockets.Session.{CloseResult}

pub record System (E I A S D R : Type 0) : Type 0 where
  pub actor : ServerState E I S
  pub connections : List (NewConnection S D R)
  pub disconnections : List (I × CloseResult)
  pub calls : List A
  pub shutdowns : List ℕ
  -- The sessions whose tasks still wait in `await_close`.
  pub live : List I
  pub exited : Bool

-- The list with an element more, if there is one.
abbrev pub append_option {ℓ} : {X : Type ℓ} → List X → Option X → List X
append_option xs none = xs
append_option xs (some x) = xs ++ x ∷ []

-- At the head of its loop the actor goes on to `select!`.
pub record IsRunning {E I A S D R : Type 0} (s : System E I A S D R) : Type 0 where
  pub not_exited : s.exited ≡ false
  pub not_done : is_done s.actor ≡ false

module _ {E I A S D R : Type 0} (ext : ServerExt E I A S D R) where
  abbrev pub round : ServerEvent I A S D R → System E I A S D R → System E I A S D R
  round ev s =
      let (actor, session) = server_step ext ev s.actor in
      record s { actor = actor; live = append_option s.live session }

  -- One step of the system, in any interleaving.
  pub data Step (s t : System E I A S D R) : Type 0 where
    -- `Server::accept`, `Server::call`, `Server::graceful_shutdown`, while the actor is there.
    accept :
        (c : NewConnection S D R)
        → s.exited ≡ false
        → t ≡ record s { connections = s.connections ++ c ∷ [] }
        → Step s t
    call : (a : A) → s.exited ≡ false → t ≡ record s { calls = s.calls ++ a ∷ [] } → Step s t
    graceful_shutdown :
        (ack : ℕ)
        → s.exited ≡ false
        → t ≡ record s { shutdowns = s.shutdowns ++ ack ∷ [] }
        → Step s t
    -- A session's actor ends, and its task posts the result.
    session_ends :
        (before : List I) (id : I) (after : List I) (result : CloseResult)
        → s.live ≡ before ++ id ∷ after
        → t ≡ record s {
          live = before ++ after;
          disconnections = s.disconnections ++ (id, result) ∷ [];
        }
        → Step s t
    -- A round of the actor; the last is disabled during a shutdown.
    take_shutdown :
        (ack : ℕ) (rest : List ℕ)
        → IsRunning s
        → s.shutdowns ≡ ack ∷ rest
        → t ≡ round (shutdown ack) (record s { shutdowns = rest })
        → Step s t
    -- There is room for one more session in a usize.
    take_connection :
        (c : NewConnection S D R) (rest : List (NewConnection S D R))
        → IsRunning s
        → s.connections ≡ c ∷ rest
        → s.actor.active_sessions + 1 < 2 ^ 64
        → t ≡ round (connected c) (record s { connections = rest })
        → Step s t
    take_disconnected :
        (id : I) (result : CloseResult) (rest : List (I × CloseResult))
        → IsRunning s
        → s.disconnections ≡ (id, result) ∷ rest
        → t ≡ round (disconnected id result) (record s { disconnections = rest })
        → Step s t
    take_call :
        (a : A) (rest : List A)
        → IsRunning s
        → s.calls ≡ a ∷ rest
        → s.actor.shutting_down ≡ false
        → t ≡ round (called a) (record s { calls = rest })
        → Step s t
    -- The loop's head ends the actor; what its channels still hold is dropped.
    exit :
        s.exited ≡ false
        → is_done s.actor ≡ true
        → t ≡ record s {
          actor = drain_acks s.actor;
          exited = true;
          connections = [];
          calls = [];
          shutdowns = [];
          disconnections = [];
        }
        → Step s t

  pub data Reach (s : System E I A S D R) : System E I A S D R → Type 0 where
    here : Reach s s
    next : {t u : System E I A S D R} → Reach s t → Step t u → Reach s u

  -- `Server::create`: an actor with the given extension.
  abbrev pub start : E → System E I A S D R
  start extension = record {
    actor = record {
      extension = extension;
      active_sessions = 0;
      shutting_down = false;
      shutdown_acks = [];
      signalled = false;
      refused = [];
      spawned = [];
      dispatched = [];
      acked = [];
    };
    connections = [];
    disconnections = [];
    calls = [];
    shutdowns = [];
    live = [];
    exited = false;
  }
