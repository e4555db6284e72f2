-- ===== src/Socket/Heartbeat/Ping.antt =====
-- The payload of the default ping of src/socket.rs.
use native.Mathlib.Nat.{pow-suc}
use ezsockets.Base.{
  [], ap, arith, length, length-append, refl, some, suc, zero, ℕ, ◌%◌, ◌*◌, ◌++◌, ◌+◌, ◌/◌, ◌<◌,
  ◌^◌, ◌∷◌, ◌≡◌,
}
use ezsockets.Socket.Heartbeat.{from_be, as_millis, default_ping, pong_millis, to_be_bytes}
use ezsockets.Socket.Message.{Bytes, RawMessage}

length-to_be_bytes : (k n : ℕ) → length (to_be_bytes k n) ≡ k
unfolding to_be_bytes
length-to_be_bytes zero n = refl
length-to_be_bytes (suc k) n =
    omega (
      arith,
      length-append (to_be_bytes k (n / 256)) (n % 256 ∷ []),
      length-to_be_bytes k (n / 256),
    )

from_be-append :
    (acc : ℕ) (xs : Bytes) (b : ℕ) → from_be acc (xs ++ b ∷ []) ≡ from_be acc xs * 256 + b
unfolding from_be
from_be-append acc [] b = refl
from_be-append acc (x ∷ xs) b = from_be-append (acc * 256 + x) xs b

from_be-to_be_bytes : (k n : ℕ) → n < 256 ^ k → from_be 0 (to_be_bytes k n) ≡ n
unfolding from_be to_be_bytes
from_be-to_be_bytes zero n h = omega arith
from_be-to_be_bytes (suc k) n h = omega (
  arith,
  from_be-append 0 (to_be_bytes k (n / 256)) (n % 256),
  from_be-to_be_bytes k (n / 256) (omega (arith, pow-suc 256 k)),
)

pong_millis-to_be_bytes : (n : ℕ) → n < 2 ^ 128 → pong_millis (to_be_bytes 16 n) ≡ some (n % 2 ^ 64)
unfolding pong_millis
pong_millis-to_be_bytes n h =
    ground (arith, length-to_be_bytes 16 n, from_be-to_be_bytes 16 n (omega arith))

default_ping_bytes :
    (timestamp : ℕ) (bytes : Bytes)
    → default_ping timestamp ≡ RawMessage.ping bytes
    → to_be_bytes 16 (as_millis timestamp) ≡ bytes
unfolding default_ping
default_ping_bytes timestamp bytes e = ap payload e
  where
    payload : RawMessage → Bytes
    payload = elim [ RawMessage.ping p ↦ p | _ ↦ [] ]

-- A pong that echoes the default ping gives back the ping's time in milliseconds, cut off to a u64;
-- the time is any whose milliseconds fit the u128.
pub pong_millis-default_ping :
    (timestamp : ℕ) (bytes : Bytes)
    → as_millis timestamp < 2 ^ 128
    → default_ping timestamp ≡ RawMessage.ping bytes
    → pong_millis bytes ≡ some (as_millis timestamp % 2 ^ 64)
pong_millis-default_ping timestamp bytes h e =
    rw (← default_ping_bytes timestamp bytes e) (pong_millis-to_be_bytes (as_millis timestamp) h)
