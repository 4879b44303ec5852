-- ===== src/Pool/Fingerprint.antt =====
-- src/services/account_pool/fingerprint.rs: which credential a request was served with. A prefix that would cut
-- a character in two panics in Rust: `none` below is that panic.
use Prim.Native.String.{len}
use text.Mathlib.Text.{◌==◌ as str_eq, get? as substring?}
use clewdr_hub.Common.{
  ℕ, String, min, Bool, false, Option, none, some, and_then, or_else, is_some_and, find, get,
}
use clewdr_hub.Config.Reason.{cookie, oauth, api_key}
use clewdr_hub.Config.Slot.{AccountSlot, TokenInfo, has_id}
use clewdr_hub.Pool.State.{PoolState}

abbrev pub credential_fingerprint_len : ℕ
credential_fingerprint_len = 20

-- `CredentialFingerprint`.
pub data CredentialFingerprint : Type 0 where
  of_cookie of_oauth of_api_key : String → CredentialFingerprint

-- `s[..cap]`, with `cap` the smaller of 20 and the length in bytes.
unfoldable pub credential_prefix : String → Option String
credential_prefix s = substring? s 0 (min credential_fingerprint_len (len s))

abbrev prefixed :
    (String → CredentialFingerprint) → Option String → Option (Option CredentialFingerprint)
prefixed kind none = some none
prefixed kind (some s) = and_then (credential_prefix s) (λ p. some (some (kind p)))

abbrev refresh_token_of : Option TokenInfo → Option String
refresh_token_of none = none
refresh_token_of (some t) = some t.refresh_token

-- `CredentialFingerprint::from_slot`.
unfoldable pub from_slot : AccountSlot → Option (Option CredentialFingerprint)
from_slot slot = elim slot.auth_method [
  | cookie ↦ prefixed of_cookie slot.cookie_blob
  | oauth ↦ prefixed of_oauth (refresh_token_of slot.token)
  | api_key ↦ prefixed of_api_key slot.api_key_secret
]

-- The equality that the type derives.
unfoldable pub fingerprint_eq : CredentialFingerprint → CredentialFingerprint → Bool
fingerprint_eq (of_cookie a) (of_cookie b) = str_eq a b
fingerprint_eq (of_oauth a) (of_oauth b) = str_eq a b
fingerprint_eq (of_api_key a) (of_api_key b) = str_eq a b
fingerprint_eq _ _ = false

abbrev fingerprint_of : Option AccountSlot → Option (Option CredentialFingerprint)
fingerprint_of none = some none
fingerprint_of (some slot) = from_slot slot

module _ {C : Type 0} where
  -- The pool's slot of an account, in the order `valid`, `exhausted`.
  unfoldable pub pool_slot : PoolState C → ℕ → Option AccountSlot
  pool_slot s id = or_else (find (has_id id) s.valid) (get id s.exhausted)

  -- `AccountPoolActor::pool_credential_fingerprint`.
  unfoldable pub pool_credential_fingerprint :
      PoolState C → ℕ → Option (Option CredentialFingerprint)
  pool_credential_fingerprint s id = fingerprint_of (pool_slot s id)

  -- `AccountPoolActor::pool_oauth_refresh_token_matches`.
  unfoldable pub pool_oauth_refresh_token_matches : PoolState C → ℕ → String → Bool
  pool_oauth_refresh_token_matches s id expected =
      is_some_and (and_then (pool_slot s id) (λ slot. slot.token))
        (λ t. str_eq t.refresh_token expected)
