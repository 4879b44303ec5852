-- ===== src/Chat.antt =====
-- src/claude_code_state/chat.rs: the retry loops of `try_chat` and `try_count_tokens`, which take an account of the pool for
-- each attempt. A run is the list of its effects on the pool and the database, in their order. The requests to the
-- upstream are answers that a run is given; the runtime fields that a request returns by itself, a request that is
-- dropped, and the rows of the request log are left out.
pub mod Upstream
pub mod Loop
use clewdr_hub.Common.{
  ℕ, zero, suc, ◌+◌, Bool, true, false, ◌&&◌, ◌||◌, not, Option, none, some, List, [], ◌∷◌, ◌++◌,
  if◌then◌else◌, is_some, unwrap_or, leb, ltb, ◌==◌, ℤ,
}
use clewdr_hub.Config.Reason.{Reason, disabled, null, AuthMethod, cookie, oauth, api_key}
use clewdr_hub.Config.Slot.{TokenInfo, AccountSlot}
use clewdr_hub.Failure.{
  AccountFailureAction, terminal_auth, terminal_disabled, transient_upstream, internal_failure,
  cooldown, AccountNormalizedReason, organization_disabled, FailureSource, messages, count_tokens,
  ClewdrError, invalid_cookie, claude_http_error, transport, other, whatever, request_token_error,
  AccountFailureContext, to_reason, classify_account_failure,
}

-- What the loop does to the pool (a dispatch, `release_slot`, `release_runtime`, `invalidate`), to the tables, and to the
-- body of a response, whose guards release the slot from then on.
pub data Effect : Type 0 where
  dispatched slot_released auth_error_set handed_over : ℕ → Effect
  runtime_released : ℕ → Option Reason → Effect
  disabled_set invalidated : ℕ → Reason → Effect
  reset_time_set : ℕ → ℤ → Effect
  failure_set : ℕ → AccountFailureContext → Effect

-- The result of a run. The error of `acquire_account` carries the account that the pool had dispatched, if any.
pub data ChatResult : Type 0 where
  response upstream_cooling_down too_many_retries unreachable : ChatResult
  failure : ClewdrError → ChatResult
  acquire_failure : Option ℕ → ClewdrError → ChatResult

-- Whether the writes to the table of accounts succeed.
pub record Writes : Type 0 where
  pub auth_error : Bool
  pub disable : Bool
  pub reset : Bool

-- What one attempt is answered: an expired token, the errors of the calls that get, refresh and persist tokens, whether
-- there is an access token in the end, and the result of the request, with a release by the handle of the slot. A
-- timeout drops what is left after so many effects.
pub record Answers : Type 0 where
  pub is_expired : TokenInfo → Bool
  pub exchange_error : Option ClewdrError
  pub persist_error : Option ClewdrError
  pub refresh_error : Option ClewdrError
  pub has_access_token : Bool
  pub released : Bool
  pub send_error : Option ClewdrError
  pub timed_out : Option ℕ
  pub db : Option Writes

-- `acquire_account`: the pool refuses, an account of the pool cannot be used, or it is the account of the attempt.
pub data Acquisition : Type 0 where
  refused : ClewdrError → Acquisition
  unusable : Option ℕ → ClewdrError → Acquisition
  acquired : AccountSlot → Answers → Acquisition

-- MAX_RETRIES
abbrev pub max_retries : ℕ
max_retries = 5

-- An effect on an account, if the slot has one.
abbrev pub on_account : Option ℕ → (ℕ → List Effect) → List Effect
on_account none f = []
on_account (some id) f = f id

-- `mark_oauth_account_auth_error`.
unfoldable pub mark_oauth_account_auth_error :
    Option Writes → ℕ → AccountFailureContext → List Effect
mark_oauth_account_auth_error none id context = []
mark_oauth_account_auth_error (some db) id context =
    if db.auth_error
    then auth_error_set id ∷ failure_set id context ∷ invalidated id null ∷ []
    else []

-- `mark_oauth_account_disabled`.
unfoldable pub mark_oauth_account_disabled : Option Writes → ℕ → AccountFailureContext → List Effect
mark_oauth_account_disabled none id context = []
mark_oauth_account_disabled (some db) id context =
    if db.disable
    then disabled_set id disabled ∷ failure_set id context ∷ invalidated id disabled ∷ []
    else []

-- `mark_oauth_account_cooldown`.
unfoldable pub mark_oauth_account_cooldown : Option Writes → ℕ → ℤ → List Effect
mark_oauth_account_cooldown none id reset_time = []
mark_oauth_account_cooldown (some db) id reset_time =
    if db.reset then reset_time_set id reset_time ∷ [] else []

-- `mark_api_key_account_auth_error`.
unfoldable pub mark_api_key_account_auth_error :
    Option Writes → ℕ → AccountFailureContext → List Effect
mark_api_key_account_auth_error none id context = []
mark_api_key_account_auth_error (some db) id context =
    if db.auth_error
    then auth_error_set id ∷ failure_set id context ∷ invalidated id null ∷ []
    else []

-- `mark_api_key_account_disabled`.
unfoldable pub mark_api_key_account_disabled :
    Option Writes → ℕ → Reason → AccountFailureContext → List Effect
mark_api_key_account_disabled none id reason context = []
mark_api_key_account_disabled (some db) id reason context =
    if db.disable
    then disabled_set id reason ∷ failure_set id context ∷ invalidated id reason ∷ []
    else []

-- `persist_last_failure`.
unfoldable pub persist_last_failure : Option Writes → ℕ → AccountFailureContext → List Effect
persist_last_failure none id context = []
persist_last_failure (some db) id context = failure_set id context ∷ []

-- `release_slot_only`, and what the guard still does once the slot is released.
abbrev pub release_slot_only : Bool → Option ℕ → List Effect
release_slot_only released account_id =
    if released then [] else on_account account_id (λ id. slot_released id ∷ [])

-- `release_account`.
abbrev pub release_account : Option Reason → Option ℕ → List Effect
release_account reason account_id = on_account account_id (λ id. runtime_released id reason ∷ [])

-- `OAuthFailureVerdict`, with the context that is persisted.
pub record OauthFailureVerdict : Type 0 where
  pub is_disabled : Bool
  pub cooldown_until : Option ℤ
  pub pool_reason : Option Reason
  pub persisted : AccountFailureContext

unfoldable pub is_organization_disabled : AccountNormalizedReason → Bool
is_organization_disabled organization_disabled = true
is_organization_disabled _ = false

unfoldable pub cooldown_end : AccountFailureAction → Option ℤ
cooldown_end (cooldown reset) = some reset
cooldown_end terminal_auth = none
cooldown_end terminal_disabled = none
cooldown_end transient_upstream = none
cooldown_end internal_failure = none

unfoldable pub reason_of_action : AccountFailureAction → AccountNormalizedReason → Option Reason
reason_of_action terminal_auth r = to_reason r
reason_of_action terminal_disabled r = to_reason r
reason_of_action (cooldown reset) r = to_reason r
reason_of_action transient_upstream r = none
reason_of_action internal_failure r = none

unfoldable pub is_terminal_auth : AccountFailureAction → Bool
is_terminal_auth terminal_auth = true
is_terminal_auth _ = false

-- `should_retry_api_key_transient`.
unfoldable pub should_retry_api_key_transient : ClewdrError → Bool
should_retry_api_key_transient (claude_http_error code text) =
    if code == 408 || code == 409 || code == 425 || code == 429
    then true
    else if leb 400 code && ltb code 500
    then false
    else true
should_retry_api_key_transient (invalid_cookie reason) = true
should_retry_api_key_transient (whatever message) = true
should_retry_api_key_transient request_token_error = true
should_retry_api_key_transient transport = true
should_retry_api_key_transient other = true

-- An attempt: its effects, and the result that ends the loop; none goes on to the next attempt.
abbrev pub Attempt : Type 0
Attempt = List Effect × Option ChatResult
