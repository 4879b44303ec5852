-- ===== src/Failure.antt =====
-- src/services/account_error.rs: what a failed request means for its account. A text is a list of bytes.
pub mod Verdict
use clewdr_hub.Common.{
  ℕ, ◌+◌, ◌*◌, ◌-◌, Bool, true, false, ◌&&◌, ◌||◌, Option, none, some, List, [], ◌∷◌, map,
  if◌then◌else◌, is_some, and_then, or_else, unwrap_or, leb, ltb, ◌==◌, length, ℤ,
}
use clewdr_hub.Config.Reason.{
  Reason, free, disabled, banned, null, restricted as limited, too_many_request, AuthMethod,
  api_key, auth_method_eq, codes, text_eq, strip_prefix,
}

-- `AccountFailureAction`.
pub data AccountFailureAction : Type 0 where
  terminal_auth terminal_disabled transient_upstream internal_failure : AccountFailureAction
  cooldown : ℤ → AccountFailureAction

-- `AccountNormalizedReason`.
pub data AccountNormalizedReason : Type 0 where
  oauth_refresh_invalid oauth_org_auth_not_allowed oauth_profile_rejected oauth_usage_rejected :
      AccountNormalizedReason
  cookie_membership_missing cookie_no_chat_capability organization_disabled :
      AccountNormalizedReason
  account_banned free_tier upstream_auth_rejected upstream_transient internal_error :
      AccountNormalizedReason
  rate_limited restricted : ℤ → AccountNormalizedReason
  upstream_http : ℕ → AccountNormalizedReason

-- `FailureSource`.
pub data FailureSource : Type 0 where
  messages count_tokens test probe_cookie probe_oauth oauth_refresh bootstrap : FailureSource

-- `ClewdrError` of src/error.rs, as far as it is told apart here: `transport` is one of `WreqError`,
-- `UpstreamTimeout`, `EventSourceAxumError`, `EventSourceRquestError` and `HttpError`, `other` any of those that the last
-- arm takes. The text of `claude_http_error` is its message, or the JSON of it where it is no string.
pub data ClewdrError : Type 0 where
  invalid_cookie : Reason → ClewdrError
  claude_http_error : ℕ → List ℕ → ClewdrError
  whatever : List ℕ → ClewdrError
  request_token_error transport other : ClewdrError

-- `AccountFailureContext`, and its persisted form.
pub record AccountFailureContext : Type 0 where
  pub action : AccountFailureAction
  pub normalized_reason : AccountNormalizedReason
  pub source : FailureSource
  pub stage : Option (List ℕ)
  pub upstream_http_status : Option ℕ
  pub raw_message : List ℕ

-- `AccountNormalizedReason::to_reason`.
unfoldable pub to_reason : AccountNormalizedReason → Option Reason
to_reason oauth_refresh_invalid = some null
to_reason oauth_org_auth_not_allowed = some null
to_reason oauth_profile_rejected = some null
to_reason oauth_usage_rejected = some null
to_reason cookie_membership_missing = some null
to_reason cookie_no_chat_capability = some null
to_reason upstream_auth_rejected = some null
to_reason organization_disabled = some disabled
to_reason account_banned = some banned
to_reason free_tier = some free
to_reason (rate_limited reset) = some (too_many_request reset)
to_reason (restricted reset) = some (limited reset)
to_reason (upstream_http status) = none
to_reason upstream_transient = none
to_reason internal_error = none

abbrev is_stage : List ℕ → Option (List ℕ) → Bool
is_stage name none = false
is_stage name (some s) = text_eq s name

abbrev refine_cookie : Option (List ℕ) → AccountNormalizedReason
refine_cookie stage =
    if is_stage (codes "memberships") stage
    then cookie_membership_missing
    else if is_stage (codes "chat_capability") stage
    then cookie_no_chat_capability
    else oauth_org_auth_not_allowed

-- `refine_null_reason`.
unfoldable pub refine_null_reason : FailureSource → Option (List ℕ) → AccountNormalizedReason
refine_null_reason oauth_refresh stage = oauth_refresh_invalid
refine_null_reason probe_oauth stage =
    if is_stage (codes "refresh") stage
    then oauth_refresh_invalid
    else if is_stage (codes "profile") stage || is_stage (codes "bootstrap") stage
    then oauth_profile_rejected
    else if is_stage (codes "usage") stage
    then oauth_usage_rejected
    else oauth_org_auth_not_allowed
refine_null_reason bootstrap stage = refine_cookie stage
refine_null_reason probe_cookie stage = refine_cookie stage
refine_null_reason messages stage = oauth_org_auth_not_allowed
refine_null_reason count_tokens stage = oauth_org_auth_not_allowed
refine_null_reason test stage = oauth_org_auth_not_allowed

-- What follows the first occurrence of a text, as `find` gives it.
unfoldable pub after : List ℕ → List ℕ → Option (List ℕ)
after word [] = strip_prefix word []
after word (c ∷ s) = or_else (strip_prefix word (c ∷ s)) (after word s)

abbrev pub has_text : List ℕ → List ℕ → Bool
has_text word s = is_some (after word s)

-- `to_ascii_lowercase`.
unfoldable pub to_ascii_lowercase : List ℕ → List ℕ
to_ascii_lowercase s = map (λ c. if leb 65 c && leb c 90 then c + 32 else c) s

abbrev is_digit : ℕ → Bool
is_digit c = leb 48 c && leb c 57

unfoldable pub take_digits : List ℕ → List ℕ
take_digits [] = []
take_digits (c ∷ s) = let rest = take_digits s in if is_digit c then c ∷ rest else []

-- The number of three digits, and no other, if it is a status.
unfoldable pub three_digits : List ℕ → Option ℕ
three_digits (a ∷ b ∷ c ∷ []) =
    let status = (a - 48) * 100 + (b - 48) * 10 + (c - 48) in
    if leb 100 status && ltb status 600 then some status else none
three_digits _ = none

-- `extract_status_code`.
unfoldable pub extract_status_code : List ℕ → Option ℕ
extract_status_code msg = and_then (after (codes "status ") msg) (λ s. three_digits (take_digits s))

-- A verdict of `classify_account_failure`.
abbrev pub Verdict : Type 0
Verdict = AccountFailureAction × AccountNormalizedReason × Option ℕ

abbrev pub refresh_token_invalid : List ℕ → Bool
refresh_token_invalid msg =
    has_text (codes "invalid_grant") msg
    || has_text (codes "refresh token not found") msg
    || (has_text (codes "refresh token") msg
        && (has_text (codes "invalid") msg || has_text (codes "expired") msg))
    || (has_text (codes "access token") msg
        && (has_text (codes "expired") msg || has_text (codes "invalid") msg))

abbrev is_auth_status : ℕ → Bool
is_auth_status status = status == 401 || status == 403

unfoldable pub status_verdict : ℕ → Verdict
status_verdict status =
    if is_auth_status status
    then (terminal_auth, upstream_auth_rejected, some status)
    else (transient_upstream, upstream_http status, some status)

-- `classify_whatever_message`.
unfoldable pub classify_whatever_message : List ℕ → Option Verdict
classify_whatever_message message =
    let msg = to_ascii_lowercase message in
    if refresh_token_invalid msg
    then some (terminal_auth, oauth_refresh_invalid, none)
    else elim (extract_status_code msg) [ some status ↦ some (status_verdict status) | none ↦ none ]

-- The `match` on the error.
unfoldable pub verdict : ClewdrError → FailureSource → Option (List ℕ) → Verdict
verdict (invalid_cookie free) source stage = (terminal_disabled, free_tier, none)
verdict (invalid_cookie disabled) source stage =
    (terminal_disabled, organization_disabled, some 400)
verdict (invalid_cookie banned) source stage = (terminal_auth, account_banned, none)
verdict (invalid_cookie null) source stage = (terminal_auth, refine_null_reason source stage, none)
verdict (invalid_cookie (too_many_request ts)) source stage =
    (cooldown ts, rate_limited ts, some 429)
verdict (invalid_cookie (limited ts)) source stage = (cooldown ts, restricted ts, none)
verdict (claude_http_error code inner) source stage =
    if code == 400
    then (if has_text (codes "organization has been disabled") (to_ascii_lowercase inner)
        then (terminal_disabled, organization_disabled, some 400)
        else (transient_upstream, upstream_http 400, some 400))
    else status_verdict code
verdict (whatever message) source stage =
    unwrap_or (classify_whatever_message message) (internal_failure, internal_error, none)
verdict request_token_error source stage = (terminal_auth, oauth_refresh_invalid, none)
verdict transport source stage = (transient_upstream, upstream_transient, none)
verdict other source stage = (internal_failure, internal_error, none)

-- An account with an API key has no window to wait for.
unfoldable pub downgrade : Option AuthMethod → AccountFailureAction → AccountFailureAction
downgrade (some api_key) (cooldown reset) = transient_upstream
downgrade kind action = action

-- `classify_account_failure`. `display` is the error's `to_string`.
unfoldable pub classify_account_failure :
    (ClewdrError → List ℕ)
    → ClewdrError
    → FailureSource
    → Option (List ℕ)
    → Option AuthMethod
    → AccountFailureContext
classify_account_failure display err source stage kind = record {
  action = downgrade kind (verdict err source stage).0;
  normalized_reason = (verdict err source stage).1;
  source = source;
  stage = stage;
  upstream_http_status = (verdict err source stage).2;
  raw_message = display err;
}

-- `AccountFailureAction::to_log_status`.
unfoldable pub to_log_status : AccountFailureAction → List ℕ
to_log_status terminal_auth = codes "auth_rejected"
to_log_status terminal_disabled = codes "auth_rejected"
to_log_status (cooldown reset) = codes "no_account_available"
to_log_status transient_upstream = codes "upstream_error"
to_log_status internal_failure = codes "internal_error"
