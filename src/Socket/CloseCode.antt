-- ===== src/Socket/CloseCode.antt =====
-- The close codes of src/socket.rs and their conversions to and from u16.
pub mod Codec
pub mod Words
use ezsockets.Base.{if◌then◌else◌, in_range, ℕ, ◌==◌}

pub data CloseCode : Type 0 where
  normal away protocol unsupported status abnormal invalid policy size extension : CloseCode
  error restart again tls : CloseCode
  reserved iana library bad : ℕ → CloseCode

-- `From<CloseCode> for u16`.
unfoldable pub to_u16 : CloseCode → ℕ
to_u16 normal = 1000
to_u16 away = 1001
to_u16 protocol = 1002
to_u16 unsupported = 1003
to_u16 status = 1005
to_u16 abnormal = 1006
to_u16 invalid = 1007
to_u16 policy = 1008
to_u16 size = 1009
to_u16 extension = 1010
to_u16 error = 1011
to_u16 restart = 1012
to_u16 again = 1013
to_u16 tls = 1015
to_u16 (reserved code) = code
to_u16 (iana code) = code
to_u16 (library code) = code
to_u16 (bad code) = code

-- The range patterns of `From<u16> for CloseCode`, below the single codes.
from_range : ℕ → CloseCode
from_range code =
    if in_range 1 999 code
    then bad code
    else if in_range 1016 2999 code
    then reserved code
    else if in_range 3000 3999 code
    then iana code
    else if in_range 4000 4999 code
    then library code
    else bad code

-- `From<u16> for CloseCode`: the first pattern that fits.
unfoldable pub from_u16 : ℕ → CloseCode
unfolding from_range
from_u16 code =
    if code == 1000
    then normal
    else if code == 1001
    then away
    else if code == 1002
    then protocol
    else if code == 1003
    then unsupported
    else if code == 1005
    then status
    else if code == 1006
    then abnormal
    else if code == 1007
    then invalid
    else if code == 1008
    then policy
    else if code == 1009
    then size
    else if code == 1010
    then extension
    else if code == 1011
    then error
    else if code == 1012
    then restart
    else if code == 1013
    then again
    else if code == 1015
    then tls
    else from_range code
