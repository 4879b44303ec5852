-- ===== src/Config/Reason.antt =====
-- src/config/reason.rs: why an account is out of rotation, and the column that stores it; with
-- `AuthMethod` of src/config/cookie.rs. A text that is read letter by letter is a list of bytes.
pub mod RoundTrip
use Prim.Native.Char.{code}
use text.Mathlib.Text.{◌==◌ as str_eq}
use clewdr_hub.Common.{
  ℕ, String, Bool, true, false, ◌&&◌, Option, none, some, List, [], ◌∷◌, ◌++◌, ◌==◌, if◌then◌else◌,
  or_else, and_then, unwrap_or, ℤ, pos,
}
use clewdr_hub.Config.Decimal.{print_i64, parse_i64}

-- `Reason`. The timestamps are in UNIX seconds.
pub data Reason : Type 0 where
  free disabled banned null : Reason
  restricted too_many_request : ℤ → Reason

-- `AuthMethod`.
pub data AuthMethod : Type 0 where
  cookie oauth api_key : AuthMethod

-- `AuthMethod::from_auth_source`.
unfoldable pub from_auth_source : String → AuthMethod
from_auth_source s =
    if str_eq s "oauth" then oauth else if str_eq s "api_key" then api_key else cookie

-- The equality that `AuthMethod` derives.
unfoldable pub auth_method_eq : AuthMethod → AuthMethod → Bool
auth_method_eq cookie cookie = true
auth_method_eq oauth oauth = true
auth_method_eq api_key api_key = true
auth_method_eq _ _ = false

-- `InvalidAccountSlot`.
pub record InvalidAccountSlot : Type 0 where
  pub account_id : ℕ
  pub auth_method : AuthMethod
  pub reason : Reason

abbrev pub codes : String → List ℕ
codes String.[] = []
codes (String.◌∷◌ c s) = code c ∷ codes s

-- `==` on texts.
unfoldable pub text_eq : List ℕ → List ℕ → Bool
text_eq [] [] = true
text_eq (a ∷ s) (b ∷ t) = a == b && text_eq s t
text_eq _ _ = false

-- `str::strip_prefix`, the prefix first.
unfoldable pub strip_prefix : List ℕ → List ℕ → Option (List ℕ)
strip_prefix [] s = some s
strip_prefix (a ∷ p) [] = none
strip_prefix (a ∷ p) (b ∷ s) = let rest = strip_prefix p s in if a == b then rest else none

-- A timestamp that cannot be read counts as 0.
abbrev timestamp : List ℕ → ℤ
timestamp ts = unwrap_or (parse_i64 ts) (pos 0)

-- `Reason::from_db_string_checked`.
unfoldable pub from_db_string_checked : List ℕ → Option Reason
unfolding text_eq strip_prefix
from_db_string_checked s =
    if text_eq s (codes "free")
    then some free
    else if text_eq s (codes "disabled")
    then some disabled
    else if text_eq s (codes "banned")
    then some banned
    else if text_eq s (codes "null")
    then some null
    else elim (strip_prefix (codes "restricted:") s) [
      | some ts ↦ some (restricted (timestamp ts))
      | none ↦
          and_then (strip_prefix (codes "too_many_request:") s)
            (λ ts. some (too_many_request (timestamp ts)))
    ]

-- `Reason::to_db_string`.
unfoldable pub to_db_string : Reason → List ℕ
to_db_string free = codes "free"
to_db_string disabled = codes "disabled"
to_db_string banned = codes "banned"
to_db_string null = codes "null"
to_db_string (restricted ts) = codes "restricted:" ++ print_i64 ts
to_db_string (too_many_request ts) = codes "too_many_request:" ++ print_i64 ts

-- `Reason::from_db_string`.
unfoldable pub from_db_string : List ℕ → Reason
from_db_string s = unwrap_or (from_db_string_checked s) null
