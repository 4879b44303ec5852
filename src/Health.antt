-- ===== src/Health.antt =====
-- src/services/account_health.rs: what is shown of the accounts, from the pool's snapshot and the rows of the
-- database. The counters are no larger than the number of rows, and are plain numbers here.
pub mod Precedence
pub mod Summary
use text.Mathlib.Text.{◌==◌ as str_eq}
use clewdr_hub.Common.{
  ℕ, suc, ◌+◌, String, Bool, true, false, not, ◌&&◌, ◌||◌, Option, none, some, List, [], ◌∷◌,
  if◌then◌else◌, is_some, is_some_and, and_then, or_else, filter_option, unwrap_or, length, leb,
  ltb, contains, get, insert, ℤ, ltbℤ,
}
use clewdr_hub.Config.Reason.{
  Reason, free, disabled, banned, null, restricted, too_many_request, from_db_string_checked,
}
use clewdr_hub.Config.Row.{AccountWithRuntime, active_reset_time}
use clewdr_hub.Pool.State.{values}
use clewdr_hub.Pool.Actor.{PoolSnapshotView}

-- `InvalidKind`.
pub data InvalidKind : Type 0 where
  auth_error disabled_account : InvalidKind

-- `AccountHealthState`.
pub data AccountHealthState : Type 0 where
  active unconfigured : AccountHealthState
  cooling_down : ℤ → AccountHealthState
  invalid : InvalidKind → Option Reason → AccountHealthState

-- `AccountHealth`.
pub record AccountHealth : Type 0 where
  pub state : AccountHealthState
  pub probing : Bool
  pub last_probe_error : Option String
  pub last_failure : Option String

-- `PoolBucket`.
pub data PoolBucket : Type 0 where
  in_valid : PoolBucket
  in_exhausted : Option ℤ → PoolBucket
  in_invalid : Reason → PoolBucket

-- `PoolAccountView`.
pub record PoolAccountView : Type 0 where
  pub bucket : Option PoolBucket
  pub inflight : Option (ℕ × ℕ)
  pub probing : Bool
  pub reactivated : Bool
  pub last_probe_error : Option String

abbrev is_filled : Option String → Bool
is_filled o = is_some_and o (λ v. not (str_eq v ""))

-- `has_credential`.
unfoldable pub has_credential : AccountWithRuntime → Bool
has_credential account =
    if str_eq account.auth_source "api_key"
    then is_filled account.api_key_base_url && is_filled account.api_key_secret
    else if str_eq account.auth_source "oauth"
    then is_some account.oauth_token
    else is_filled account.cookie_blob

-- `parse_db_invalid_reason`.
unfoldable pub parse_db_invalid_reason : AccountWithRuntime → Option Reason
parse_db_invalid_reason account = and_then account.invalid_reason from_db_string_checked

abbrev kind_of_reason : Reason → InvalidKind
kind_of_reason disabled = disabled_account
kind_of_reason _ = auth_error

-- `infer_invalid_kind`.
unfoldable pub infer_invalid_kind : AccountWithRuntime → Reason → InvalidKind
infer_invalid_kind account reason =
    if str_eq account.status "disabled"
    then disabled_account
    else if str_eq account.status "auth_error"
    then auth_error
    else kind_of_reason reason

abbrev cooling : Option ℤ → AccountHealthState
cooling none = active
cooling (some t) = cooling_down t

-- `compose_terminal_from_db`.
unfoldable pub compose_terminal_from_db : AccountWithRuntime → Option AccountHealthState
compose_terminal_from_db account =
    if str_eq account.status "auth_error"
    then some (invalid auth_error (parse_db_invalid_reason account))
    else if str_eq account.status "disabled"
    then some (invalid disabled_account (parse_db_invalid_reason account))
    else none

-- `compose_from_db`.
unfoldable pub compose_from_db : ℤ → AccountWithRuntime → AccountHealthState
compose_from_db clock account =
    if str_eq account.status "auth_error"
    then invalid auth_error (parse_db_invalid_reason account)
    else if str_eq account.status "disabled"
    then invalid disabled_account (parse_db_invalid_reason account)
    else if not (has_credential account)
    then unconfigured
    else cooling (active_reset_time clock account)

-- `compose_from_pool_or_db`.
unfoldable pub compose_from_pool_or_db :
    ℤ → AccountWithRuntime → Option PoolBucket → ℤ → AccountHealthState
compose_from_pool_or_db clock account (some in_valid) now = active
compose_from_pool_or_db clock account (some (in_exhausted reset_time)) now =
    cooling (or_else (filter_option (λ t. ltbℤ now t) reset_time) (active_reset_time clock account))
compose_from_pool_or_db clock account (some (in_invalid reason)) now =
    invalid (infer_invalid_kind account reason) (some reason)
compose_from_pool_or_db clock account none now = compose_from_db clock account

abbrev pub is_in_invalid : Option PoolBucket → Bool
is_in_invalid (some (in_invalid reason)) = true
is_in_invalid _ = false

abbrev failure_shown : AccountHealthState → Option String → Option String
failure_shown (invalid kind reason) failure = failure
failure_shown _ failure = none

unfoldable pub health_state : ℤ → AccountWithRuntime → PoolAccountView → ℤ → AccountHealthState
health_state clock account view now =
    if is_in_invalid view.bucket || view.reactivated
    then compose_from_pool_or_db clock account view.bucket now
    else unwrap_or (compose_terminal_from_db account)
        (compose_from_pool_or_db clock account view.bucket now)

-- `compose_health`.
unfoldable pub compose_health : ℤ → AccountWithRuntime → PoolAccountView → ℤ → AccountHealth
compose_health clock account view now = record {
  state = health_state clock account view now;
  probing = view.probing;
  last_probe_error = view.last_probe_error;
  last_failure = failure_shown (health_state clock account view now) account.last_failure;
}

abbrev bucket_of : PoolSnapshotView → ℕ → Option PoolBucket
bucket_of view id =
    if contains id view.valid_ids then some in_valid else elim (get id view.exhausted) [
      | some reset ↦ some (in_exhausted reset)
      | none ↦ elim (get id view.invalid) [ some reason ↦ some (in_invalid reason) | none ↦ none ]
    ]

-- The view of one account in the loop of `compose_health_snapshot`.
unfoldable pub account_view : PoolSnapshotView → ℕ → PoolAccountView
account_view view id = record {
  bucket = bucket_of view id;
  inflight = get id view.inflight;
  probing = contains id view.probing;
  reactivated = contains id view.reactivated;
  last_probe_error = get id view.probe_errors;
}
