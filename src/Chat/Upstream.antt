-- ===== src/Chat/Upstream.antt =====
-- src/claude_code_state/chat.rs: the requests of an attempt, with the token ladder and the timeout.
use clewdr_hub.Common.{
  ℕ, zero, suc, Bool, true, false, Option, none, some, List, [], ◌∷◌, ◌++◌, if◌then◌else◌, is_some,
}
use clewdr_hub.Config.Reason.{AuthMethod, cookie, oauth, api_key}
use clewdr_hub.Config.Slot.{TokenInfo}
use clewdr_hub.Failure.{ClewdrError, transport, other}
use clewdr_hub.Chat.{Effect, slot_released, Answers, on_account, release_account}

-- The effects of the requests, and their error.
abbrev pub Sent : Type 0
Sent = List Effect × Option ClewdrError

-- `check_token`: no token, an expired one, or a valid one.
pub data TokenStatus : Type 0 where
  no_token expired valid : TokenStatus

unfoldable pub check_token : (TokenInfo → Bool) → Option TokenInfo → TokenStatus
check_token is_expired none = no_token
check_token is_expired (some token) = if is_expired token then expired else valid

-- `send_chat` and `perform_count_tokens`.
unfoldable pub send : Option ℕ → Answers → Sent
send account_id a =
    ((if a.released then on_account account_id (λ id. slot_released id ∷ []) else []), a.send_error)

abbrev pub send_with_token : Option ℕ → Answers → Sent
send_with_token account_id a = if a.has_access_token then send account_id a else ([], some other)

-- The tokens are stored, and the account goes back with them.
abbrev pub store_then_send : Option ClewdrError → Option ℕ → Answers → Sent
store_then_send (some e) account_id a = ([], some e)
store_then_send none account_id a =
    let sent = send_with_token account_id a in (release_account none account_id ++ sent.0, sent.1)

abbrev pub refresh_then_send : Option ClewdrError → Option ℕ → Answers → Sent
refresh_then_send (some e) account_id a = ([], some e)
refresh_then_send none none a = ([], some other)
refresh_then_send none (some id) a = send_with_token (some id) a

abbrev pub send_by_status : AuthMethod → TokenStatus → Option ℕ → Answers → Sent
send_by_status api_key status account_id a = send account_id a
send_by_status oauth no_token account_id a = ([], some other)
send_by_status oauth expired account_id a =
    refresh_then_send (if is_some account_id then a.persist_error else some other) account_id a
send_by_status oauth valid account_id a = send_with_token account_id a
send_by_status cookie no_token account_id a = store_then_send a.exchange_error account_id a
send_by_status cookie expired account_id a = store_then_send a.refresh_error account_id a
send_by_status cookie valid account_id a = send_with_token account_id a

unfoldable pub take_effects : ℕ → List Effect → List Effect
take_effects n [] = []
take_effects zero (e ∷ es) = []
take_effects (suc n) (e ∷ es) = e ∷ take_effects n es

-- `timeout_upstream`.
unfoldable pub timeout_upstream : Option ℕ → Sent → Sent
timeout_upstream none sent = sent
timeout_upstream (some n) (effects, result) = (take_effects n effects, some transport)

-- Whether the handle has released the slot.
unfoldable pub has_released : List Effect → Bool
has_released [] = false
has_released (slot_released id ∷ es) = true
has_released (_ ∷ es) = has_released es
