-- ===== src/Chat/Loop/Requests.antt =====
-- src/claude_code_state/chat.rs: what the requests of an attempt do to its slot.
use clewdr_hub.Common.{
  ℕ, zero, suc, ◌≡◌, refl, Bool-cases, inl, inr, Option, none, some, List, [], ◌∷◌,
}
use clewdr_hub.Config.Reason.{AuthMethod, cookie, oauth, api_key}
use clewdr_hub.Failure.{ClewdrError}
use clewdr_hub.Chat.{Effect, slot_released, runtime_released, Answers}
use clewdr_hub.Chat.Upstream.{
  Sent, TokenStatus, no_token, expired, valid, send, send_with_token, store_then_send,
  refresh_then_send, send_by_status, take_effects, timeout_upstream,
}

-- The requests release no slot but the attempt's, and that once, in the end.
unfoldable pub IsSent : Option ℕ → List Effect → Type 0
IsSent account_id [] = Unit {0}
IsSent account_id (runtime_released j reason ∷ es) = IsSent account_id es
IsSent account_id (slot_released j ∷ es) = (account_id ≡ some j) × (es ≡ [])
IsSent account_id (_ ∷ es) = ⊥

take_effects-IsSent :
    (account_id : Option ℕ) (n : ℕ) (es : List Effect)
    → IsSent account_id es
    → IsSent account_id (take_effects n es)
unfolding take_effects IsSent
take_effects-IsSent account_id n [] h = h
take_effects-IsSent account_id zero (e ∷ es) h = tt
take_effects-IsSent account_id (suc n) (runtime_released j reason ∷ es) h =
    take_effects-IsSent account_id n es h
take_effects-IsSent account_id (suc n) (slot_released j ∷ es) h = (h.0, rw h.1 refl)
take_effects-IsSent account_id (suc n) (_ ∷ es) h = absurd h

pub timeout_upstream-IsSent :
    (account_id : Option ℕ) (timed_out : Option ℕ) (sent : Sent)
    → IsSent account_id sent.0
    → IsSent account_id (timeout_upstream timed_out sent).0
unfolding timeout_upstream
timeout_upstream-IsSent account_id none sent h = h
timeout_upstream-IsSent account_id (some n) (es, result) h = take_effects-IsSent account_id n es h

send-IsSent : (account_id : Option ℕ) (a : Answers) → IsSent account_id (send account_id a).0
unfolding send IsSent
send-IsSent none a = elim (Bool-cases a.released) [ inl e ↦ rw e tt | inr e ↦ rw e tt ]
send-IsSent (some id) a = elim (Bool-cases a.released) [
  | inl e ↦ rw e (refl, refl)
  | inr e ↦ rw e tt
]

send_with_token-IsSent :
    (account_id : Option ℕ) (a : Answers) → IsSent account_id (send_with_token account_id a).0
unfolding IsSent send
send_with_token-IsSent account_id a = elim (Bool-cases a.has_access_token) [
  | inl e ↦ rw e (send-IsSent account_id a)
  | inr e ↦ rw e tt
]

store_then_send-IsSent :
    (error : Option ClewdrError) (account_id : Option ℕ) (a : Answers)
    → IsSent account_id (store_then_send error account_id a).0
unfolding IsSent
store_then_send-IsSent (some e) account_id a = tt
store_then_send-IsSent none none a = send_with_token-IsSent none a
store_then_send-IsSent none (some id) a = send_with_token-IsSent (some id) a

refresh_then_send-IsSent :
    (error : Option ClewdrError) (account_id : Option ℕ) (a : Answers)
    → IsSent account_id (refresh_then_send error account_id a).0
unfolding IsSent
refresh_then_send-IsSent (some e) account_id a = tt
refresh_then_send-IsSent none none a = tt
refresh_then_send-IsSent none (some id) a = send_with_token-IsSent (some id) a

pub send_by_status-IsSent :
    (method : AuthMethod) (status : TokenStatus) (account_id : Option ℕ) (a : Answers)
    → IsSent account_id (send_by_status method status account_id a).0
unfolding IsSent
send_by_status-IsSent api_key status account_id a = send-IsSent account_id a
send_by_status-IsSent oauth no_token account_id a = tt
send_by_status-IsSent oauth expired account_id a = refresh_then_send-IsSent _ account_id a
send_by_status-IsSent oauth valid account_id a = send_with_token-IsSent account_id a
send_by_status-IsSent cookie no_token account_id a = store_then_send-IsSent _ account_id a
send_by_status-IsSent cookie expired account_id a = store_then_send-IsSent _ account_id a
send_by_status-IsSent cookie valid account_id a = send_with_token-IsSent account_id a
