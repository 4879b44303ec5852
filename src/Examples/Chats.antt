-- ===== src/Examples/Chats.antt =====
-- Concrete runs of the retry loops, and the theorems applied to them.
use clewdr_hub.Common.{
  ℕ, zero, suc, ◌+◌, ◌≤◌, ◌≡◌, refl, true, false, Option, none, some, List, [], count,
}
use clewdr_hub.Config.Reason.{null, AuthMethod, cookie, api_key}
use clewdr_hub.Config.Slot.{AccountSlot, default_slot}
use clewdr_hub.Failure.{
  ClewdrError, invalid_cookie, claude_http_error, other, downgrade, verdict, status_verdict,
  classify_account_failure,
}
use clewdr_hub.Chat.{
  response, persist_last_failure, should_retry_api_key_transient, Answers, Acquisition, unusable,
  acquired,
}
use clewdr_hub.Chat.Loop.{
  cookie_failure, api_key_failure, cookie_disallows, attempt, count_attempt, attempts, try_chat,
  try_count_tokens,
}
use clewdr_hub.Chat.Upstream.{check_token, send, timeout_upstream, has_released}
use clewdr_hub.Chat.Loop.Conserved.{lost, takes, gives_back, try_chat-slots, try_count_tokens-slots}
use clewdr_hub.Chat.Loop.Ends.{is_dispatch, IsReached, try_chat-attempts}

abbrev display : ClewdrError → List ℕ
display e = []

abbrev slot_of : ℕ → AuthMethod → AccountSlot
slot_of id method = record default_slot { account_id = some id; auth_method = method }

-- The request is sent, and it has the result.
abbrev answered : Option ClewdrError → Answers
answered error = record {
  is_expired = λ t. false;
  exchange_error = none;
  persist_error = none;
  refresh_error = none;
  has_access_token = true;
  released = false;
  send_error = error;
  timed_out = none;
  db = some (record { auth_error = true; disable = true; reset = true });
}

-- An account with a cookie that is refused, one with an API key whose upstream is down, and one that streams.
abbrev acquisitions : ℕ → Acquisition
acquisitions zero = acquired (slot_of 1 cookie) (answered (some (invalid_cookie null)))
acquisitions (suc zero) = acquired (slot_of 2 api_key) (answered (some (claude_http_error 503 [])))
acquisitions (suc (suc n)) = acquired (slot_of 3 api_key) (answered none)

-- An account that cannot be used follows.
abbrev broken : ℕ → Acquisition
broken zero = acquired (slot_of 1 cookie) (answered (some (invalid_cookie null)))
broken (suc n) = unusable (some 2) other

try_chat-slots_example :
    count (takes 3) (try_chat display true acquisitions).0
    ≡ count (gives_back true 3) (try_chat display true acquisitions).0
      + lost 3 (try_chat display true acquisitions).1
try_chat-slots_example = try_chat-slots display true acquisitions 3

try_count_tokens-slots_example :
    count (takes 2) (try_count_tokens display broken).0
    ≡ count (gives_back false 2) (try_count_tokens display broken).0
      + lost 2 (try_count_tokens display broken).1
try_count_tokens-slots_example = try_count_tokens-slots display broken 2

try_chat-attempts_example :
    (count is_dispatch (try_chat display true acquisitions).0 ≤ 6)
    × IsReached (try_chat display true acquisitions).1
try_chat-attempts_example = try_chat-attempts display true acquisitions

-- The run is handed over with its third account, the other one loses its second account.
runs_end :
    ((try_chat display true acquisitions).1 ≡ response)
    × (count is_dispatch (try_chat display true acquisitions).0 ≡ 3)
    × (count (takes 2) (try_count_tokens display broken).0 ≡ 1)
    × (count (gives_back false 2) (try_count_tokens display broken).0 ≡ 0)
unfolding try_chat try_count_tokens attempts attempt count_attempt count timeout_upstream
    check_token send cookie_failure api_key_failure classify_account_failure downgrade verdict
    status_verdict should_retry_api_key_transient has_released persist_last_failure cookie_disallows
runs_end = (refl, refl, refl, refl)
