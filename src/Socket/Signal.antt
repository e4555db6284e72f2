-- ===== src/Socket/Signal.antt =====
-- `MessageSignal`, `InRawMessage` and `InMessage` of src/socket.rs. A signal is an `Arc<AtomicU8>`
-- that the message and its sender share: a reference to a cell of the store `Signals`. A method that
-- mutates `&mut self` returns the new value, and a drop is a call of its own.
pub mod Laws
use mathlib.Core.Option
use ezsockets.Base.{Option, if◌then◌else◌, none, some, suc, ℕ, ◌==◌}
use ezsockets.Socket.Message.{Message, RawMessage, to_raw}

-- The values of `MessageStatus`.
pub data MessageStatus : Type 0 where
  sending sent failed : MessageStatus

pub record Signals : Type 0 where
  -- Cells are allocated from 0 on.
  pub allocated : ℕ
  pub cell : ℕ → ℕ

-- A `MessageSignal`: the number of its cell.
abbrev pub MessageSignal : Type 0
MessageSignal = ℕ

-- The value that `MessageSignal::set` stores.
unfoldable pub status_byte : MessageStatus → ℕ
status_byte sending = 0
status_byte sent = 1
status_byte failed = 2

-- `MessageSignal::status`.
unfoldable pub status : Signals → MessageSignal → MessageStatus
status s i = if s.cell i == 0 then sending else if s.cell i == 1 then sent else failed

-- `MessageSignal::set`.
unfoldable pub set : MessageSignal → MessageStatus → Signals → Signals
unfolding status_byte
set i st s = record s { cell = λ j. if i == j then status_byte st else s.cell j }

-- `MessageSignal::default`.
unfoldable pub default : Signals → MessageSignal × Signals
default s =
    let i = s.allocated in
    (i, record s { allocated = suc i; cell = λ j. if i == j then 0 else s.cell j })

-- `MessageSignal::new`.
unfoldable pub new : MessageStatus → Signals → MessageSignal × Signals
unfolding default set
new st s = let (signal, s') = default s in (signal, set signal st s')

pub record InRawMessage : Type 0 where
  pub message : Option RawMessage
  pub signal : Option MessageSignal

pub record InMessage : Type 0 where
  pub message : Option Message
  pub signal : Option MessageSignal

-- `InRawMessage::new`.
unfoldable pub new_raw : RawMessage → Signals → InRawMessage × Signals
unfolding default
new_raw m s =
    let (signal, s') = default s in (record { message = some m; signal = some signal }, s')

-- `InRawMessage::take_message`.
unfoldable pub take_message : InRawMessage → Option RawMessage × InRawMessage
take_message m = (m.message, record m { message = none })

set_option : Option MessageSignal → MessageStatus → Signals → Signals
unfolding set
set_option none st s = s
set_option (some i) st s = set i st s

-- `InRawMessage::set_signal`.
unfoldable pub set_signal : MessageStatus → InRawMessage → Signals → InRawMessage × Signals
unfolding set_option
set_signal st m s = (record m { signal = none }, set_option m.signal st s)

-- `Drop for InRawMessage`.
unfoldable pub drop_raw : InRawMessage → Signals → Signals
unfolding set_signal
drop_raw m s = (set_signal failed m s).1

-- `InMessage::new`.
unfoldable pub new_message : Message → Signals → InMessage × Signals
unfolding default
new_message m s =
    let (signal, s') = default s in (record { message = some m; signal = some signal }, s')

-- `InMessage::clone_signal`.
unfoldable pub clone_signal : InMessage → Option MessageSignal
clone_signal m = m.signal

-- `Drop for InMessage`.
unfoldable pub drop_message : InMessage → Signals → Signals
unfolding set_option
drop_message m s = set_option m.signal failed s

-- `From<InMessage> for InRawMessage`; the emptied `InMessage` is dropped at its end.
unfoldable pub into_raw : InMessage → Signals → InRawMessage × Signals
unfolding drop_message
into_raw m s =
    let emptied : InMessage = record { message = none; signal = none } in
    (record { message = Option.map to_raw m.message; signal = m.signal }, drop_message emptied s)
