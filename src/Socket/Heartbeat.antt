-- ===== src/Socket/Heartbeat.antt =====
-- `SocketConfig` and the heartbeat of src/socket.rs; Browser is its variant for wasm. Times and durations are
-- nanoseconds; the clock, the sleep and the channel of the sink are arguments, and a round takes no
-- time: both its readings of the clock give the same.
pub mod Ping
pub mod Browser
pub mod Liveness
use ezsockets.Base.{
  Bool, List, Option, [], false, if◌then◌else◌, length, ltb, none, some, suc, true, zero, ℕ, ◌%◌,
  ◌*◌, ◌++◌, ◌+◌, ◌-◌, ◌/◌, ◌==◌, ◌^◌, ◌∷◌,
}
use ezsockets.Socket.CloseCode.{CloseCode}
use ezsockets.Socket.Message.{Bytes, RawMessage}
use ezsockets.Socket.Signal.{InRawMessage, Signals, drop_raw, new_raw}
use ezsockets.Socket.Sink.{sink_send_raw}

pub record SocketConfig : Type 0 where
  pub heartbeat : ℕ
  pub timeout : ℕ
  pub heartbeat_ping_msg_fn : ℕ → RawMessage

-- The big-endian bytes of a number below 256 ^ k.
unfoldable pub to_be_bytes : ℕ → ℕ → Bytes
to_be_bytes zero n = []
to_be_bytes (suc k) n = to_be_bytes k (n / 256) ++ n % 256 ∷ []

-- `Duration::as_millis`.
unfoldable pub as_millis : ℕ → ℕ
as_millis ns = ns / 1000000

-- The default `heartbeat_ping_msg_fn`: the milliseconds, a u128, as sixteen bytes.
unfoldable pub default_ping : ℕ → RawMessage
unfolding as_millis to_be_bytes
default_ping timestamp = RawMessage.ping (to_be_bytes 16 (as_millis timestamp))

-- `Duration::from_secs`.
abbrev from_secs : ℕ → ℕ
from_secs s = s * 1000000000

-- `SocketConfig::default`.
unfoldable pub default_config : SocketConfig
default_config = record {
  heartbeat = from_secs 5;
  timeout = from_secs 10;
  heartbeat_ping_msg_fn = default_ping;
}

from_be : ℕ → Bytes → ℕ
from_be acc [] = acc
from_be acc (b ∷ bytes) = from_be (acc * 256 + b) bytes

-- What the stream actor reads from a pong: the milliseconds of sixteen bytes, cut off to a u64.
unfoldable pub pong_millis : Bytes → Option ℕ
unfolding from_be
pong_millis bytes = if length bytes == 16 then some (from_be 0 bytes % 2 ^ 64) else none

-- The channel to the sink actor, and the signals.
pub record Beat (C : Type 0) : Type 0 where
  pub channel : C
  pub signals : Signals

-- What one `select!` of `socket_heartbeat` yields.
pub data HeartbeatEvent : Type 0 where
  -- The sleep is over, with the time, `last_alive` and the time since UNIX_EPOCH.
  slept : ℕ → ℕ → ℕ → HeartbeatEvent
  aborted : HeartbeatEvent

-- The close frame of a partner that is silent for too long.
abbrev pub inactive : RawMessage
inactive =
    RawMessage.close
      (some (record { code = CloseCode.abnormal; reason = "remote partner is inactive" }))

module _ {C : Type 0} (channel_send : C → InRawMessage → C × Option InRawMessage) where
  -- Drop what `send_raw` returns, and tell whether it was an error.
  discard : (C × Option InRawMessage) → Signals → Beat C × Bool
  unfolding drop_raw
  discard (c, none) s = (record { channel = c; signals = s }, false)
  discard (c, some m) s = (record { channel = c; signals = drop_raw m s }, true)

  -- `sink.send_raw(InRawMessage::new(message)).await.is_err()`.
  unfoldable pub send_new : RawMessage → Beat C → Beat C × Bool
  unfolding discard new_raw sink_send_raw
  send_new message b =
      let (m, s) = new_raw message b.signals in discard (sink_send_raw channel_send b.channel m) s

  -- `handle_heartbeat_sleep_elapsed` at the time `now`, with `last_alive` and the time since
  -- UNIX_EPOCH. `Instant::elapsed` saturates, as `-` does.
  unfoldable pub handle_heartbeat_sleep_elapsed :
      SocketConfig → ℕ → ℕ → ℕ → Beat C → Beat C × Option ℕ
  unfolding send_new
  handle_heartbeat_sleep_elapsed config last_alive now timestamp b =
      let elapsed = now - last_alive in
      if ltb config.timeout elapsed
      then ((send_new inactive b).0, none)
      else if ltb elapsed config.heartbeat
      then (b, some (config.heartbeat - elapsed))
      else let (b', lost) = send_new (config.heartbeat_ping_msg_fn timestamp) b in
        (b', if lost then none else some config.heartbeat)

  -- `socket_heartbeat` over the events so far, with the deadline of its sleep; `none` once the loop
  -- is left.
  unfoldable pub socket_heartbeat :
      SocketConfig → List HeartbeatEvent → ℕ → Beat C → Beat C × Option ℕ
  socket_heartbeat config [] deadline b = (b, some deadline)
  socket_heartbeat config (aborted ∷ es) deadline b = (b, none)
  socket_heartbeat config (slept now last_alive timestamp ∷ es) deadline b =
      let (b', next) = handle_heartbeat_sleep_elapsed config last_alive now timestamp b in
      elim next [ none ↦ (b', none) | some d ↦ socket_heartbeat config es (now + d) b' ]
