-- ===== src/Config/Reason/RoundTrip.antt =====
-- src/config/reason.rs: what is stored in `accounts.invalid_reason` is read back.
use clewdr_hub.Common.{◌≡◌, refl}
use clewdr_hub.Config.Decimal.{IsI64, parse_i64-print_i64}
use clewdr_hub.Config.Reason.{
  Reason, free, disabled, banned, null, restricted, too_many_request, from_db_string_checked,
  to_db_string, from_db_string,
}

-- The timestamps that a reason carries are values of `i64`.
abbrev pub HasI64 : Reason → Type 0
HasI64 (restricted ts) = IsI64 ts
HasI64 (too_many_request ts) = IsI64 ts
HasI64 _ = Unit {0}

-- Reading a stored reason gives the reason back, with its timestamp, if that is an `i64`.
pub from_db_string-to_db_string : (r : Reason) → HasI64 r → from_db_string (to_db_string r) ≡ r
unfolding from_db_string from_db_string_checked to_db_string
from_db_string-to_db_string free h = refl
from_db_string-to_db_string disabled h = refl
from_db_string-to_db_string banned h = refl
from_db_string-to_db_string null h = refl
from_db_string-to_db_string (restricted ts) h = rw (parse_i64-print_i64 ts h)
from_db_string-to_db_string (too_many_request ts) h = rw (parse_i64-print_i64 ts h)
