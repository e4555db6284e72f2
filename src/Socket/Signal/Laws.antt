-- ===== src/Socket/Signal/Laws.antt =====
-- What a sender may conclude from its message's signal.
use ezsockets.Base.{arith, if◌then◌else◌, refl, ◌==◌, ◌≡◌}
use ezsockets.Socket.Message.{Message, to_raw}
use ezsockets.Socket.Signal.{
  InRawMessage, MessageSignal, MessageStatus, Signals, drop_raw, into_raw, new, new_message,
  new_raw, set, set_signal, status,
}

-- A write of a signal is what is read back from it, and leaves every other signal alone.
pub status-set :
    (i j : MessageSignal) (st : MessageStatus) (s : Signals)
    → status (set i st s) j ≡ (if i == j then st else status s j)
unfolding status set
status-set i j st s = ground arith

-- A new signal has the given status and is the only one that changes.
pub status-new :
    (st : MessageStatus) (s : Signals) (j : MessageSignal)
    → let (i, s') = new st s in status s' j ≡ (if i == j then st else status s j)
unfolding status new
status-new st s j = ground arith

-- `set_signal` is final: whatever the message was, later writes through it and its drop change no
-- signal.
pub set_signal_final :
    (st later : MessageStatus) (m : InRawMessage) (s : Signals)
    → let (m', s') = set_signal st m s in ((set_signal later m' s').1 ≡ s') × (drop_raw m' s' ≡ s')
unfolding set_signal drop_raw
set_signal_final st later m s = (refl, refl)

-- Making a message raw keeps its content and its signal, and the drop of the emptied message marks
-- nothing as failed.
pub into_raw_lem :
    (m : Message) (s : Signals)
    → let (inmessage, s') = new_message m s in into_raw inmessage s' ≡ new_raw (to_raw m) s
unfolding into_raw new_message new_raw
into_raw_lem m s = refl
