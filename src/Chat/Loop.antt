-- ===== src/Chat/Loop.antt =====
-- src/claude_code_state/chat.rs: one attempt of `try_chat` and of `try_count_tokens`, and the loops.
pub mod Requests
pub mod Slots
pub mod Balance
pub mod Conserved
pub mod Ends
use clewdr_hub.Common.{
  ℕ, zero, suc, ◌+◌, Bool, true, false, ◌&&◌, ◌||◌, not, Option, none, some, List, [], ◌∷◌, ◌++◌,
  if◌then◌else◌, is_some, unwrap_or, ℤ,
}
use clewdr_hub.Config.Reason.{Reason, disabled, AuthMethod, cookie, oauth, api_key}
use clewdr_hub.Config.Slot.{TokenInfo, AccountSlot}
use clewdr_hub.Failure.{
  AccountFailureAction, terminal_auth, terminal_disabled, transient_upstream, internal_failure,
  cooldown, FailureSource, messages, count_tokens, ClewdrError, invalid_cookie, claude_http_error,
  transport, other, whatever, request_token_error, AccountFailureContext, to_reason,
  classify_account_failure,
}
use clewdr_hub.Chat.{
  Effect, dispatched, slot_released, handed_over, ChatResult, response, upstream_cooling_down,
  too_many_retries, unreachable, failure, acquire_failure, Answers, Acquisition, refused, unusable,
  acquired, max_retries, on_account, mark_oauth_account_auth_error, mark_oauth_account_disabled,
  mark_oauth_account_cooldown, mark_api_key_account_auth_error, mark_api_key_account_disabled,
  persist_last_failure, release_slot_only, release_account, OauthFailureVerdict,
  is_organization_disabled, cooldown_end, reason_of_action, is_terminal_auth,
  should_retry_api_key_transient, Attempt, Writes,
}
use clewdr_hub.Chat.Upstream.{
  Sent, check_token, send, send_with_token, store_then_send, refresh_then_send, send_by_status,
  take_effects, timeout_upstream, has_released, TokenStatus, no_token, expired, valid,
}

module _ (display : ClewdrError → List ℕ) where
  -- `classify_oauth_failure`.
  unfoldable pub classify_oauth_failure : ClewdrError → FailureSource → OauthFailureVerdict
  classify_oauth_failure e source =
      let context = classify_account_failure display e source none none in
      record {
        is_disabled = is_organization_disabled context.normalized_reason;
        cooldown_until = cooldown_end context.action;
        pool_reason = reason_of_action context.action context.normalized_reason;
        persisted = context;
      }

  -- `is_oauth_auth_failure`.
  unfoldable pub is_oauth_auth_failure : ClewdrError → Bool
  is_oauth_auth_failure e =
      is_terminal_auth (classify_account_failure display e messages none none).action

  -- What a failure of an OAuth account does to its row.
  unfoldable pub mark_oauth_failure :
      Option Writes → ClewdrError → OauthFailureVerdict → ℕ → List Effect
  mark_oauth_failure db e verdict id =
      if verdict.is_disabled
      then mark_oauth_account_disabled db id verdict.persisted
      else elim verdict.cooldown_until [
        | some reset_time ↦ mark_oauth_account_cooldown db id reset_time
        | none ↦
            if is_oauth_auth_failure e
            then mark_oauth_account_auth_error db id verdict.persisted
            else []
      ]

  -- The arm of an OAuth account.
  unfoldable pub oauth_failure :
      FailureSource → Option Writes → Bool → Option ℕ → ClewdrError → Attempt
  oauth_failure source db released account_id e =
      let verdict = classify_oauth_failure e source in
      (
        on_account account_id (mark_oauth_failure db e verdict)
            ++ release_slot_only released account_id
            ++ (if is_some verdict.pool_reason
                then release_account verdict.pool_reason account_id
                else []),
        some (if is_some verdict.cooldown_until then upstream_cooling_down else failure e),
      )

  -- The arm of an account with an API key, by the action of the verdict.
  abbrev pub api_key_verdict :
      AccountFailureAction
      → AccountFailureContext
      → Option Writes
      → Option ℕ
      → ClewdrError
      → Attempt
  api_key_verdict terminal_auth context db account_id e = (
    on_account account_id (λ id. mark_api_key_account_auth_error db id context),
    some (failure e),
  )
  api_key_verdict terminal_disabled context db account_id e = (
    on_account account_id (λ id.
        mark_api_key_account_disabled db id
          (unwrap_or (to_reason context.normalized_reason) disabled) context),
    some (failure e),
  )
  api_key_verdict transient_upstream context db account_id e = (
    release_account none account_id,
    if should_retry_api_key_transient e then none else some (failure e),
  )
  api_key_verdict (cooldown reset) context db account_id e = ([], some unreachable)
  api_key_verdict internal_failure context db account_id e = ([], some (failure e))

  unfoldable pub api_key_failure :
      FailureSource → Option Writes → Bool → Option ℕ → ClewdrError → Attempt
  api_key_failure source db released account_id e =
      let context = classify_account_failure display e source none (some api_key) in
      let verdict = api_key_verdict context.action context db account_id e in
      (release_slot_only released account_id ++ verdict.0, verdict.1)

  -- The arm of an account with a cookie.
  abbrev pub cookie_error : FailureSource → Option Writes → Option ℕ → ClewdrError → Attempt
  cookie_error source db account_id (invalid_cookie reason) = (
    on_account account_id (λ id.
          persist_last_failure db id
            (classify_account_failure display (invalid_cookie reason) source none none))
        ++ release_account (some reason) account_id,
    none,
  )
  cookie_error source db account_id (claude_http_error code text) =
      ([], some (failure (claude_http_error code text)))
  cookie_error source db account_id (whatever message) = ([], some (failure (whatever message)))
  cookie_error source db account_id request_token_error = ([], some (failure request_token_error))
  cookie_error source db account_id transport = ([], some (failure transport))
  cookie_error source db account_id other = ([], some (failure other))

  unfoldable pub cookie_failure :
      FailureSource → Option Writes → Bool → Option ℕ → ClewdrError → Attempt
  cookie_failure source db released account_id e =
      let verdict = cookie_error source db account_id e in
      (release_slot_only released account_id ++ verdict.0, verdict.1)

  abbrev pub on_failure :
      AuthMethod → FailureSource → Option Writes → Bool → Option ℕ → ClewdrError → Attempt
  on_failure oauth = oauth_failure
  on_failure api_key = api_key_failure
  on_failure cookie = cookie_failure

  -- After the requests: a response that is handed over keeps the slot.
  abbrev pub settle :
      FailureSource → Bool → AccountSlot → Option Writes → Bool → Option ClewdrError → Attempt
  settle source streams slot db released none = (
    (if streams
        then (if released then [] else on_account slot.account_id (λ id. handed_over id ∷ []))
        else release_slot_only released slot.account_id),
    some response,
  )
  settle source streams slot db released (some e) =
      on_failure slot.auth_method source db released slot.account_id e

  -- An attempt of `try_chat`; `streams` is `self.stream || self.non_stream_keepalive`.
  unfoldable pub attempt : FailureSource → Bool → AccountSlot → Answers → Attempt
  attempt source streams slot a =
      let sent =
        timeout_upstream a.timed_out (
          send_by_status slot.auth_method (check_token a.is_expired slot.token) slot.account_id
            a) in
      let settled = settle source streams slot a.db (has_released sent.0) sent.1 in
      (sent.0 ++ settled.0, settled.1)

  abbrev pub chat_attempt : Bool → AccountSlot → Answers → Attempt
  chat_attempt streams = attempt messages streams

  -- Whether an account may not count tokens upstream. What the attempt then stores is what is stored already.
  unfoldable pub cookie_disallows : AccountSlot → Bool
  cookie_disallows slot = elim slot.auth_method [
    | api_key ↦ false
    | cookie ↦ is_disallowed slot.count_tokens_allowed
    | oauth ↦ is_disallowed slot.count_tokens_allowed
  ]
    where
      is_disallowed : Option Bool → Bool
      is_disallowed none = false
      is_disallowed (some allowed) = not allowed

  -- An attempt of `try_count_tokens`; its requests have no handle of the slot.
  unfoldable pub count_attempt : AccountSlot → Answers → Attempt
  count_attempt slot a =
      if cookie_disallows slot
      then (release_slot_only false slot.account_id, some response)
      else attempt count_tokens false slot (record a { released = false })

-- The loop, from an attempt on, with so many attempts left.
abbrev pub continue_with : Option ChatResult → List Effect × ChatResult → List Effect × ChatResult
continue_with none rest = rest
continue_with (some result) rest = ([], result)

abbrev pub then_loop : Option ℕ → Attempt → List Effect × ChatResult → List Effect × ChatResult
then_loop account_id (effects, result) rest =
    let after = continue_with result rest in
    (on_account account_id (λ id. dispatched id ∷ []) ++ effects ++ after.0, after.1)

module _ (turn : AccountSlot → Answers → Attempt) (acquire_account : ℕ → Acquisition) where
  abbrev pub acquire_then : Acquisition → List Effect × ChatResult → List Effect × ChatResult
  acquire_then (refused e) rest = ([], acquire_failure none e)
  acquire_then (unusable account_id e) rest =
      (on_account account_id (λ id. dispatched id ∷ []), acquire_failure account_id e)
  acquire_then (acquired slot a) rest = then_loop slot.account_id (turn slot a) rest

  unfoldable pub attempts : ℕ → ℕ → List Effect × ChatResult
  attempts i zero = ([], too_many_retries)
  attempts i (suc left) = let rest = attempts (i + 1) left in acquire_then (acquire_account i) rest

-- `try_chat`.
unfoldable pub try_chat :
    (ClewdrError → List ℕ) → Bool → (ℕ → Acquisition) → List Effect × ChatResult
try_chat display streams acquire_account =
    attempts (chat_attempt display streams) acquire_account 0 (max_retries + 1)

-- `try_count_tokens`.
unfoldable pub try_count_tokens :
    (ClewdrError → List ℕ) → (ℕ → Acquisition) → List Effect × ChatResult
try_count_tokens display acquire_account =
    attempts (count_attempt display) acquire_account 0 (max_retries + 1)
