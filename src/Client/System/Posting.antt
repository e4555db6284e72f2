-- ===== src/Client/System/Posting.antt =====
-- Every message that a client's handles post (src/client.rs).
use ezsockets.Base.{Among, List, [], ◌++◌, ◌∷◌, ◌≡◌}
use ezsockets.Client.{ClientConfig, ClientExt}
use ezsockets.Client.System.{ClientMove, ClientSystem, client_move}
use ezsockets.Client.System.Fates.{Fate, IsBelow}
use ezsockets.Client.System.Moving.{accepted_by}
use ezsockets.Socket.Signal.{InMessage}

module _ {E A K U H : Type 0} (ext : ClientExt E A) (config : ClientConfig U H) where
  -- A message that was accepted has a cell for a signal, and a fate.
  record Kept (acc : List InMessage) (s : ClientSystem E A K) : Type 0 where
    fates : (m : InMessage) → Among m acc → IsBelow m s.state.signals.allocated × Fate s m
    world : s.state.world ≡ []

  -- The messages that the client's channel accepts, in order.
  abbrev pub accepted_all : List (ClientMove A K) → ClientSystem E A K → List InMessage
  accepted_all [] s = []
  accepted_all (m ∷ ms) s = accepted_by m s ++ accepted_all ms (client_move ext config m s.phase s)
