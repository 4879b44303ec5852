-- ===== src/Failure/Verdict.antt =====
-- src/services/account_error.rs: the scheduler's action and the reason that is stored agree.
use clewdr_hub.Common.{
  ℕ, ◌≡◌, ◌≢◌, refl, true, ◌||◌, Option, none, some, List, arith, Bool-cases, Option-cases, ◌⊎◌,
  inl, inr, unwrap_or, ◌==◌, ℤ,
}
use clewdr_hub.Config.Reason.{
  Reason, free, disabled, banned, null, restricted as limited, too_many_request, AuthMethod, cookie,
  oauth, api_key, codes,
}
use clewdr_hub.Pool.Collect.{is_sticky}
use clewdr_hub.Failure.{
  AccountFailureAction, terminal_auth, terminal_disabled, transient_upstream, internal_failure,
  cooldown, internal_error, FailureSource, messages, count_tokens, test, probe_cookie, probe_oauth,
  oauth_refresh, bootstrap, ClewdrError, invalid_cookie, claude_http_error, whatever,
  request_token_error, transport, other, to_reason, refine_null_reason, extract_status_code,
  Verdict, status_verdict, has_text, to_ascii_lowercase, refresh_token_invalid,
  classify_whatever_message, verdict, downgrade, classify_account_failure,
}

-- What the action says of the reason to store: a terminal one has a reason that no request clears, a cooldown has
-- one with the same end, any other none.
abbrev pub Agrees : AccountFailureAction → Option Reason → Type 0
Agrees terminal_auth r = (reason : Reason) × (r ≡ some reason) × (is_sticky reason ≡ true)
Agrees terminal_disabled r = (reason : Reason) × (r ≡ some reason) × (is_sticky reason ≡ true)
Agrees (cooldown reset) r = (r ≡ some (too_many_request reset)) ⊎ (r ≡ some (limited reset))
Agrees transient_upstream r = r ≡ none
Agrees internal_failure r = r ≡ none

refine_null_reason-to_reason :
    (source : FailureSource) (stage : Option (List ℕ))
    → to_reason (refine_null_reason source stage) ≡ some null
unfolding to_reason refine_null_reason
refine_null_reason-to_reason messages stage = refl
refine_null_reason-to_reason count_tokens stage = refl
refine_null_reason-to_reason test stage = refl
refine_null_reason-to_reason probe_cookie stage = ground arith
refine_null_reason-to_reason probe_oauth stage = ground arith
refine_null_reason-to_reason oauth_refresh stage = refl
refine_null_reason-to_reason bootstrap stage = ground arith

abbrev AgreesVerdict : Verdict → Type 0
AgreesVerdict v = Agrees v.0 (to_reason v.1)

status_verdict-Agrees : (status : ℕ) → AgreesVerdict (status_verdict status)
unfolding status_verdict to_reason is_sticky
status_verdict-Agrees status = elim (Bool-cases (status == 401 || status == 403)) [
  | inl e ↦ rw e (null, refl, refl)
  | inr e ↦ rw e refl
]

classify_whatever_message-Agrees :
    (message : List ℕ)
    → AgreesVerdict
        (unwrap_or (classify_whatever_message message) (internal_failure, internal_error, none))
unfolding classify_whatever_message to_reason is_sticky
classify_whatever_message-Agrees message =
    elim (Bool-cases (refresh_token_invalid (to_ascii_lowercase message))) [
      | inl e ↦ rw e (null, refl, refl)
      | inr e ↦ elim (Option-cases (extract_status_code (to_ascii_lowercase message))) [
        | inl q ↦ rw (e, q) refl
        | inr (status, q) ↦ rw (e, q) (status_verdict-Agrees status)
      ]
    ]

verdict-Agrees :
    (err : ClewdrError) (source : FailureSource) (stage : Option (List ℕ))
    → AgreesVerdict (verdict err source stage)
unfolding verdict to_reason is_sticky
verdict-Agrees (invalid_cookie free) source stage = (free, refl, refl)
verdict-Agrees (invalid_cookie disabled) source stage = (disabled, refl, refl)
verdict-Agrees (invalid_cookie banned) source stage = (banned, refl, refl)
verdict-Agrees (invalid_cookie null) source stage =
    (null, refine_null_reason-to_reason source stage, refl)
verdict-Agrees (invalid_cookie (too_many_request ts)) source stage = inl refl
verdict-Agrees (invalid_cookie (limited ts)) source stage = inr refl
verdict-Agrees (claude_http_error code inner) source stage = elim (Bool-cases (code == 400)) [
  | inl e ↦
      elim (Bool-cases
        (has_text (codes "organization has been disabled") (to_ascii_lowercase inner))) [
          | inl t ↦ rw (e, t) (disabled, refl, refl)
          | inr t ↦ rw (e, t) refl
        ]
  | inr e ↦ rw e (status_verdict-Agrees code)
]
verdict-Agrees (whatever message) source stage = classify_whatever_message-Agrees message
verdict-Agrees request_token_error source stage = (null, refl, refl)
verdict-Agrees transport source stage = refl
verdict-Agrees other source stage = refl

downgrade-id :
    (kind : Option AuthMethod) (a : AccountFailureAction)
    → kind ≢ some api_key
    → downgrade kind a ≡ a
unfolding downgrade
downgrade-id none a h = refl
downgrade-id (some cookie) a h = refl
downgrade-id (some oauth) a h = refl
downgrade-id (some api_key) a h = absurd (h refl)

-- The verdict on a failure agrees with the reason that is stored for it, unless the account has an API key: an
-- account is taken out for good exactly with a reason that no request clears, it cools down exactly with one
-- that carries the end of the cooldown, and no reason is stored for a failure that is not the account's.
pub classify_account_failure-Agrees :
    (display : ClewdrError → List ℕ) (err : ClewdrError) (source : FailureSource)
    (stage : Option (List ℕ)) (kind : Option AuthMethod)
    → kind ≢ some api_key
    → Agrees
        (classify_account_failure display err source stage kind).action
        (to_reason (classify_account_failure display err source stage kind).normalized_reason)
unfolding classify_account_failure
classify_account_failure-Agrees display err source stage kind h =
    rw (downgrade-id kind (verdict err source stage).0 h) (verdict-Agrees err source stage)

never_cools : (a : AccountFailureAction) (reset : ℤ) → downgrade (some api_key) a ≢ cooldown reset
unfolding downgrade
never_cools terminal_auth reset e = cc
never_cools terminal_disabled reset e = cc
never_cools transient_upstream reset e = cc
never_cools internal_failure reset e = cc
never_cools (cooldown r) reset e = cc

-- No failure parks an account that has an API key, and what is shown of the failure is the same as for any
-- other account.
pub classify_account_failure-api_key :
    (display : ClewdrError → List ℕ) (err : ClewdrError) (source : FailureSource)
    (stage : Option (List ℕ)) (reset : ℤ) (kind : Option AuthMethod)
    → ((classify_account_failure display err source stage (some api_key)).action ≢ cooldown reset)
      × ((classify_account_failure display err source stage (some api_key)).normalized_reason
          ≡ (classify_account_failure display err source stage kind).normalized_reason)
      × ((classify_account_failure display err source stage (some api_key)).upstream_http_status
          ≡ (classify_account_failure display err source stage kind).upstream_http_status)
unfolding classify_account_failure
classify_account_failure-api_key display err source stage reset kind =
    (never_cools (verdict err source stage).0 reset, refl, refl)

-- The normalized reason of a reason that is raised as an error converts back to that reason, wherever it was raised.
pub classify_account_failure-to_reason :
    (display : ClewdrError → List ℕ) (reason : Reason) (source : FailureSource)
    (stage : Option (List ℕ)) (kind : Option AuthMethod)
    → to_reason
        (classify_account_failure display
          (invalid_cookie reason)
          source
          stage
          kind).normalized_reason
      ≡ some reason
unfolding classify_account_failure verdict to_reason
classify_account_failure-to_reason display free source stage kind = refl
classify_account_failure-to_reason display disabled source stage kind = refl
classify_account_failure-to_reason display banned source stage kind = refl
classify_account_failure-to_reason display null source stage kind =
    refine_null_reason-to_reason source stage
classify_account_failure-to_reason display (limited ts) source stage kind = refl
classify_account_failure-to_reason display (too_many_request ts) source stage kind = refl
