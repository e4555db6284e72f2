-- ===== src/Server/Service.antt =====
-- What the server of src/server.rs promises, without its queues, its counter and its tasks: a service
-- that has sessions, as a bag, and is asked to stop.
use mathlib.Mathlib.Data.Multiset.Defs.{Multiset, of_list}
use mathlib.Mathlib.Data.Multiset.ZeroCons.{cons}
use ezsockets.Base.{List, Option, [], err, ok, some, ℕ, ◌++◌, ◌∷◌, ◌≡◌, ◌≢◌}
use ezsockets.Server.{NewConnection, ServerExt, going_away}
use ezsockets.Session.{CloseResult}
use ezsockets.Socket.Message.{CloseFrame}

pub data Phase : Type 0 where
  serving draining stopped : Phase

pub record Service (E I S : Type 0) : Type 0 where
  pub extension : E
  -- The sessions that were accepted and not yet reported to the extension, and those that were.
  pub open_sessions : Multiset I
  pub reported : Multiset I
  pub refused : List (S × Option CloseFrame)
  -- Those who asked for the stop, and those who were told that it is done.
  pub waiting : List ℕ
  pub answered : List ℕ
  pub phase : Phase

module _ {E I A S D R : Type 0} (ext : ServerExt E I A S D R) where
  -- One act of the service. Only a serving one takes sessions and calls, and only a draining one with
  -- no session left stops.
  pub data Act (a b : Service E I S) : Type 0 where
    admit :
        (c : NewConnection S D R) (extension : E) (id : I)
        → a.phase ≡ serving
        → ext.on_connect a.extension c.socket c.request c.address ≡ (extension, ok id)
        → b ≡ record a { extension = extension; open_sessions = cons id a.open_sessions }
        → Act a b
    reject :
        (c : NewConnection S D R) (extension : E) (f : Option CloseFrame)
        → a.phase ≡ serving
        → ext.on_connect a.extension c.socket c.request c.address ≡ (extension, err f)
        → b ≡ record a { extension = extension; refused = a.refused ++ (c.socket, f) ∷ [] }
        → Act a b
    turn_away :
        (c : NewConnection S D R)
        → a.phase ≡ draining
        → b ≡ record a { refused = a.refused ++ (c.socket, some going_away) ∷ [] }
        → Act a b
    handle_call :
        (x : A)
        → a.phase ≡ serving
        → b ≡ record a { extension = (ext.on_call a.extension x).0 }
        → Act a b
    report :
        (id : I) (result : CloseResult) (rest : Multiset I)
        → a.phase ≢ stopped
        → a.open_sessions ≡ cons id rest
        → b ≡ record a {
          extension = (ext.on_disconnect a.extension id result).0;
          open_sessions = rest;
          reported = cons id a.reported;
        }
        → Act a b
    ask :
        (ack : ℕ)
        → a.phase ≢ stopped
        → b ≡ record a { waiting = a.waiting ++ ack ∷ []; phase = draining }
        → Act a b
    stop :
        a.phase ≡ draining
        → a.open_sessions ≡ of_list []
        → b ≡ record a { waiting = []; answered = a.answered ++ a.waiting; phase = stopped }
        → Act a b

  pub data Run (a : Service E I S) : Service E I S → Type 0 where
    idle : Run a a
    acts : {b c : Service E I S} → Run a b → Act b c → Run a c

  abbrev pub opening : E → Service E I S
  opening extension = record {
    extension = extension;
    open_sessions = of_list [];
    reported = of_list [];
    refused = [];
    waiting = [];
    answered = [];
    phase = serving;
  }
