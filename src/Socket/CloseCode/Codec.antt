-- ===== src/Socket/CloseCode/Codec.antt =====
-- The u16 codec of close codes.
use ezsockets.Base.{arith, refl, subst, ℕ, ◌<◌, ◌↔◌, ◌≡◌, ◌≤◌, ◌⊎◌}
use ezsockets.Socket.CloseCode.{CloseCode, bad, from_u16, iana, library, reserved, to_u16}

-- Writing the close code read from any number gives the number back, also at the numbers that no
-- range lists (0, 1004, 1014 and those from 5000 on).
pub to_u16-from_u16 : (n : ℕ) → to_u16 (from_u16 n) ≡ n
unfolding to_u16 from_u16
to_u16-from_u16 n = ground arith

-- The close codes that name a number in the way in which it is read: the payload of a variant lies
-- in the range that RFC 6455 gives it.
abbrev pub IsCanonical : CloseCode → Type 0
IsCanonical (reserved n) = (1016 ≤ n) × (n ≤ 2999)
IsCanonical (iana n) = (3000 ≤ n) × (n ≤ 3999)
IsCanonical (library n) = (4000 ≤ n) × (n ≤ 4999)
IsCanonical (bad n) = (n < 1000) ⊎ (n ≡ 1004) ⊎ (n ≡ 1014) ⊎ (5000 ≤ n)
IsCanonical _ = Unit {0}

-- Whatever number is read, the close code is a canonical one.
pub from_u16-IsCanonical : (n : ℕ) → IsCanonical (from_u16 n)
unfolding from_u16
from_u16-IsCanonical n = ground arith

from_u16-to_u16 : (c : CloseCode) → IsCanonical c → from_u16 (to_u16 c) ≡ c
unfolding from_u16 to_u16
from_u16-to_u16 (reserved n) h = ground arith
from_u16-to_u16 (iana n) h = ground arith
from_u16-to_u16 (library n) h = ground arith
from_u16-to_u16 (bad n) h = ground arith
from_u16-to_u16 _ h = refl

-- Reading back the number of a close code gives the close code exactly when it is canonical.
pub from_u16-to_u16_iff : (c : CloseCode) → (from_u16 (to_u16 c) ≡ c) ↔ IsCanonical c
from_u16-to_u16_iff c =
    (λ e. subst IsCanonical e (from_u16-IsCanonical (to_u16 c)), from_u16-to_u16 c)
