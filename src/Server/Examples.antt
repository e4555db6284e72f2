-- ===== src/Server/Examples.antt =====
-- A run of the server: one session, a shutdown, and a connection that comes too late.
use mathlib.Core.List.{Perm}
use ezsockets.Base.{
  List, Option, [], arith, err, if◌then◌else◌, none, ok, refl, some, true, ℕ, ◌++◌, ◌+◌, ◌==◌, ◌∷◌,
  ◌≡◌, ◌⊎◌,
}
use ezsockets.Error.{Error}
use ezsockets.Server.{
  NewConnection, ServerExt, drain_acks, going_away, is_done, server_step, shutdown,
}
use ezsockets.Server.Dispatch.{Reach-IsAccounted, accounted, acked-dispatched}
use ezsockets.Server.Invariant.{Inv, Reach-Inv}
use ezsockets.Server.Refining.{Reach-Run, view}
use ezsockets.Server.Service.{Run, opening}
use ezsockets.Server.Sessions.{session_task}
use ezsockets.Server.Sessions.Telling.{DispatchesAll, session_task-on_disconnect}
use ezsockets.Server.Shutdown.{Step-shutting_down, idle_shutdown_acks_first}
use ezsockets.Server.System.{
  IsRunning, Reach, Step, System, accept, graceful_shutdown, here, next, round, session_ends, start,
  take_connection, take_disconnected, take_shutdown,
}
use ezsockets.Session.{Branch, CloseResult, SessionExt, SessionState, incoming}
use ezsockets.Session.Closing.{await_close, create_task}
use ezsockets.Socket.Message.{Message, Utf8Bytes}
use ezsockets.Socket.Signal.{InRawMessage}

abbrev S : Type 0
S = System (List ℕ) ℕ ℕ ℕ ℕ ℕ

-- It keeps a list of what it was told, refuses the socket 9, and fails on every disconnect.
abbrev demo : ServerExt (List ℕ) ℕ ℕ ℕ ℕ ℕ
demo = record {
  on_connect = λ e s r d. (s ∷ e, if s == 9 then err none else ok s);
  on_disconnect = λ e id result. ((id + 100) ∷ e, err (Error.handler 1));
  on_call = λ e a. (a ∷ e, ok tt);
}

abbrev client : ℕ → NewConnection ℕ ℕ ℕ
client n = record { socket = n; address = 80; request = 0 }

abbrev began : S
began = start demo []

abbrev offered : S
offered = record began { connections = client 3 ∷ client 9 ∷ client 4 ∷ [] }

abbrev connected_once : S
connected_once = record offered {
  connections = client 9 ∷ client 4 ∷ [];
  live = 3 ∷ [];
  actor = record (began.actor) { extension = 3 ∷ []; active_sessions = 1; spawned = 3 ∷ [] };
}

abbrev asked : S
asked = record connected_once { shutdowns = 7 ∷ 8 ∷ [] }

abbrev stopping : S
stopping = record asked {
  shutdowns = 8 ∷ [];
  actor = record (connected_once.actor) {
    shutting_down = true;
    signalled = true;
    shutdown_acks = 7 ∷ [];
  };
}

abbrev ended : S
ended = record stopping { live = []; disconnections = (3, ok (some going_away)) ∷ [] }

abbrev idle : S
idle = record ended {
  disconnections = [];
  actor = record (stopping.actor) {
    extension = 103 ∷ 3 ∷ [];
    active_sessions = 0;
    dispatched = 3 ∷ [];
  };
}

abbrev gone : S
gone = record idle {
  exited = true;
  connections = [];
  shutdowns = [];
  actor = record (idle.actor) { shutdown_acks = []; acked = 7 ∷ [] };
}

connected-Reach : Reach demo began connected_once
unfolding server_step is_done
connected-Reach =
    let r1 : Reach demo began (record began { connections = client 3 ∷ [] }) =
      next here (accept (client 3) refl refl) in
    let r2 : Reach demo began (record began { connections = client 3 ∷ client 9 ∷ [] }) =
      next r1 (accept (client 9) refl refl) in
    let r3 : Reach demo began offered = next r2 (accept (client 4) refl refl) in
    next r3 (
      take_connection (client 3) (client 9 ∷ client 4 ∷ [])
        (record { not_exited = refl; not_done = refl }) refl (omega arith) refl)

asked-Reach : Reach demo began asked
asked-Reach =
    let r5 : Reach demo began (record connected_once { shutdowns = 7 ∷ [] }) =
      next connected-Reach (graceful_shutdown 7 refl refl) in
    next r5 (graceful_shutdown 8 refl refl)

take_request : Step demo asked stopping
unfolding server_step is_done
take_request = take_shutdown 7 (8 ∷ []) (record { not_exited = refl; not_done = refl }) refl refl

stopping-Reach : Reach demo began stopping
stopping-Reach = next asked-Reach take_request

gone-Reach : Reach demo began gone
unfolding server_step is_done drain_acks
gone-Reach =
    let r1 : Reach demo began ended =
      next stopping-Reach (session_ends [] 3 [] (ok (some going_away)) refl refl) in
    let r2 : Reach demo began idle = next r1 (
      take_disconnected 3 (ok (some going_away)) [] (record { not_exited = refl; not_done = refl })
        refl refl) in
    next r2 (Step.exit refl refl refl)

acked-dispatched_example :
    (gone.exited ≡ true)
    × (gone.live ≡ [])
    × (gone.disconnections ≡ [])
    × Perm gone.actor.spawned gone.actor.dispatched
acked-dispatched_example = acked-dispatched demo gone-Reach (λ e. cc)

Reach-IsAccounted_example : Perm (3 ∷ []) (accounted asked)
Reach-IsAccounted_example = Reach-IsAccounted demo asked-Reach

Reach-Run_example : Run demo (opening demo []) (view stopping)
Reach-Run_example = Reach-Run demo stopping-Reach

Reach-Inv_example : Inv stopping
Reach-Inv_example = Reach-Inv demo stopping-Reach

late : S
late = record stopping {
  connections = client 4 ∷ [];
  actor = record (stopping.actor) { refused = (9, some going_away) ∷ [] };
}

refuse_late : Step demo stopping late
unfolding server_step is_done late
refuse_late =
    take_connection (client 9) (client 4 ∷ []) (record { not_exited = refl; not_done = refl }) refl
      (omega arith) refl

Step-shutting_down_example :
    (late.actor.shutting_down ≡ true)
    × (late.actor.spawned ≡ 3 ∷ [])
    × ((late.actor.extension ≡ 3 ∷ [])
        ⊎ ((id : ℕ) × (result : CloseResult) × (late.actor.extension
              ≡ (demo.on_disconnect (3 ∷ []) id result).0)))
    × ((late.connections ≡ stopping.connections)
        ⊎ ((c : NewConnection ℕ ℕ ℕ) × (late.connections ≡ stopping.connections ++ c ∷ []))
        ⊎ ((c : NewConnection ℕ ℕ ℕ) × (stopping.connections ≡ c ∷ late.connections)
            × (late.actor.refused ≡ (c.socket, some going_away) ∷ []))
        ⊎ (late.exited ≡ true))
Step-shutting_down_example = Step-shutting_down demo refuse_late refl

-- Two callers at a server with no session: the second is not acknowledged.
abbrev two_callers : S
two_callers = record began { shutdowns = 1 ∷ 2 ∷ [] }

abbrev left_alone : S
left_alone = record began {
  exited = true;
  actor = record (began.actor) { shutting_down = true; signalled = true; acked = 1 ∷ [] };
}

left_alone-Reach :
    Reach demo (round demo (shutdown 1) (record two_callers { shutdowns = 2 ∷ [] })) left_alone
unfolding server_step is_done drain_acks
left_alone-Reach = next here (Step.exit refl refl refl)

two_callers_run : IsRunning two_callers
unfolding is_done
two_callers_run = record { not_exited = refl; not_done = refl }

idle_shutdown_acks_first_example : (left_alone.actor.acked ≡ []) ⊎ (left_alone.actor.acked ≡ 1 ∷ [])
idle_shutdown_acks_first_example =
    idle_shutdown_acks_first demo two_callers left_alone 1 (2 ∷ []) two_callers_run refl refl refl
      left_alone-Reach

-- A session that hears a text, and then the end of the stream.
abbrev listener : SessionExt (List Utf8Bytes) ℕ
listener = record {
  on_text = λ e s. (s ∷ e, ok tt);
  on_binary = λ e bytes. (e, ok tt);
  on_call = λ e a. (e, ok tt);
}

abbrev takes_all : ℕ → InRawMessage → ℕ × Option InRawMessage
takes_all c m = (c + 1, none)

abbrev listening : SessionState (List Utf8Bytes) ℕ
listening = record {
  extension = [];
  channel = 0;
  signals = record { allocated = 0; cell = λ i. 0 };
}

abbrev hangs_up : List (Branch ℕ)
hangs_up = incoming (some (ok (Message.text "hello"))) ∷ incoming none ∷ []

session_task-on_disconnect_example :
    let (left, posted) =
      session_task 3 (create_task listener takes_all hangs_up listening).1 connected_once in
    let s' = record posted { live = [] } in
    Step demo connected_once s'
    × ((await_close left).1 ≡ none)
    × DispatchesAll demo ((3, ok none) ∷ []) connected_once s'
session_task-on_disconnect_example =
    session_task-on_disconnect demo listener takes_all hangs_up listening [] 3 [] (ok none)
      connected_once (λ c m. refl) connected-Reach refl refl
