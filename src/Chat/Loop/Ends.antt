-- ===== src/Chat/Loop/Ends.antt =====
-- src/claude_code_state/chat.rs: how a run of the loops ends.
use clewdr_hub.Common.{
  ℕ, zero, suc, ◌+◌, ◌≡◌, ◌≢◌, ◌≤◌, refl, ◌∙◌, Bool, true, false, Bool-cases, inl, inr, Option,
  none, some, List, [], ◌∷◌, is_some, arith, count, ℤ,
}
use clewdr_hub.Config.Reason.{AuthMethod, cookie, oauth, api_key}
use clewdr_hub.Config.Slot.{AccountSlot}
use clewdr_hub.Failure.{
  AccountFailureAction, terminal_auth, terminal_disabled, transient_upstream, internal_failure,
  cooldown, FailureSource, messages, ClewdrError, invalid_cookie, other, claude_http_error,
  transport, whatever, request_token_error, AccountFailureContext,
}
use clewdr_hub.Chat.{
  Effect, dispatched, ChatResult, response, upstream_cooling_down, too_many_retries, unreachable,
  failure, acquire_failure, Answers, Acquisition, refused, unusable, acquired, on_account,
  should_retry_api_key_transient, Attempt, Writes,
}
use clewdr_hub.Chat.Loop.{
  oauth_failure, api_key_verdict, api_key_failure, cookie_error, cookie_failure, on_failure, settle,
  attempt, attempts, try_chat, classify_oauth_failure, acquire_then, then_loop,
}
use clewdr_hub.Chat.Loop.Slots.{slot_test}
use clewdr_hub.Chat.Loop.Balance.{tally-attempt}
use clewdr_hub.Chat.Loop.Conserved.{appended, own_never}
use clewdr_hub.Failure.Verdict.{classify_account_failure-api_key}

-- Not in the arm of an account with an API key that the source calls unreachable.
abbrev pub IsReached : ChatResult → Type 0
IsReached unreachable = ⊥
IsReached response = Unit {0}
IsReached upstream_cooling_down = Unit {0}
IsReached too_many_retries = Unit {0}
IsReached (failure e) = Unit {0}
IsReached (acquire_failure account_id e) = Unit {0}

abbrev IsReachedEnd : Option ChatResult → Type 0
IsReachedEnd none = Unit {0}
IsReachedEnd (some result) = IsReached result

module _ (display : ClewdrError → List ℕ) (source : FailureSource) where
  reached-api_key_verdict :
      (action : AccountFailureAction) (context : AccountFailureContext) (db : Option Writes)
      (account_id : Option ℕ) (e : ClewdrError)
      → ((reset : ℤ) → action ≢ cooldown reset)
      → IsReachedEnd (api_key_verdict display action context db account_id e).1
  reached-api_key_verdict terminal_auth context db account_id e h = tt
  reached-api_key_verdict terminal_disabled context db account_id e h = tt
  reached-api_key_verdict transient_upstream context db account_id e h =
      elim (Bool-cases (should_retry_api_key_transient e)) [ inl q ↦ rw q tt | inr q ↦ rw q tt ]
  reached-api_key_verdict (cooldown reset) context db account_id e h = absurd (h reset refl)
  reached-api_key_verdict internal_failure context db account_id e h = tt

  reached-cookie_error :
      (db : Option Writes) (account_id : Option ℕ) (e : ClewdrError)
      → IsReachedEnd (cookie_error display source db account_id e).1
  reached-cookie_error db account_id (invalid_cookie reason) = tt
  reached-cookie_error db account_id (claude_http_error code text) = tt
  reached-cookie_error db account_id (whatever message) = tt
  reached-cookie_error db account_id request_token_error = tt
  reached-cookie_error db account_id transport = tt
  reached-cookie_error db account_id other = tt

  reached-on_failure :
      (method : AuthMethod) (db : Option Writes) (released : Bool) (account_id : Option ℕ)
      (e : ClewdrError)
      → IsReachedEnd (on_failure display method source db released account_id e).1
  unfolding oauth_failure api_key_failure cookie_failure
  reached-on_failure oauth db released account_id e =
      elim (Bool-cases (is_some (classify_oauth_failure display e source).cooldown_until)) [
        | inl q ↦ rw q tt
        | inr q ↦ rw q tt
      ]
  reached-on_failure api_key db released account_id e =
      reached-api_key_verdict _ _ db account_id e
        (λ reset. (classify_account_failure-api_key display e source none reset none).0)
  reached-on_failure cookie db released account_id e = reached-cookie_error db account_id e

  reached-attempt :
      (streams : Bool) (slot : AccountSlot) (a : Answers)
      → IsReachedEnd (attempt display source streams slot a).1
  unfolding attempt
  reached-attempt streams slot a = reached-settle _ _
    where
      reached-settle :
          (released : Bool) (error : Option ClewdrError)
          → IsReachedEnd (settle display source streams slot a.db released error).1
      reached-settle released none = tt
      reached-settle released (some e) =
          reached-on_failure slot.auth_method a.db released slot.account_id e

abbrev pub is_dispatch : Effect → Bool
is_dispatch = slot_test (λ j. true) (λ j. false) (λ j. false)

-- A run that is within so many dispatches, and that ends in a reached arm.
abbrev EndsWithin : ℕ → List Effect × ChatResult → Type 0
EndsWithin n run = (count is_dispatch run.0 ≤ n) × IsReached run.1

at_most_one :
    (account_id : Option ℕ)
    → count is_dispatch (on_account account_id (λ id. dispatched id ∷ [])) ≤ 1
unfolding count
at_most_one none = omega arith
at_most_one (some id) = omega arith

then_loop-EndsWithin :
    (n : ℕ) (account_id : Option ℕ) (t : Attempt) (rest : List Effect × ChatResult)
    → count is_dispatch t.0 ≡ 0
    → IsReachedEnd t.1
    → EndsWithin n rest
    → EndsWithin (suc n) (then_loop account_id t rest)
unfolding count
then_loop-EndsWithin n account_id (es, none) rest q reached h =
    (omega (arith, q, h.0, appended is_dispatch _ es rest.0, at_most_one account_id), h.1)
then_loop-EndsWithin n account_id (es, some result) rest q reached h =
    (omega (arith, q, appended is_dispatch _ es [], at_most_one account_id), reached)

attempts-EndsWithin :
    (turn : AccountSlot → Answers → Attempt)
    → ((slot : AccountSlot) (a : Answers) → count is_dispatch (turn slot a).0 ≡ 0)
    → ((slot : AccountSlot) (a : Answers) → IsReachedEnd (turn slot a).1)
    → (acquire_account : ℕ → Acquisition) (i left : ℕ)
    → EndsWithin left (attempts turn acquire_account i left)
unfolding attempts count
attempts-EndsWithin turn q reached acquire_account i zero = (omega arith, tt)
attempts-EndsWithin turn q reached acquire_account i (suc left) =
    by_acquisition (acquire_account i) _
      (attempts-EndsWithin turn q reached acquire_account (i + 1) left)
  where
    by_acquisition :
        (acquisition : Acquisition) (rest : List Effect × ChatResult)
        → EndsWithin left rest
        → EndsWithin (suc left) (acquire_then turn acquire_account acquisition rest)
    by_acquisition (refused e) rest h = (omega arith, tt)
    by_acquisition (unusable account_id e) rest h = (omega (arith, at_most_one account_id), tt)
    by_acquisition (acquired slot a) rest h =
        then_loop-EndsWithin left slot.account_id (turn slot a) rest (q slot a) (reached slot a) h

-- A run of try_chat ends after at most six dispatches, and never in the arm that the source calls unreachable.
pub try_chat-attempts :
    (display : ClewdrError → List ℕ) (streams : Bool) (acquire_account : ℕ → Acquisition)
    → (count is_dispatch (try_chat display streams acquire_account).0 ≤ 6)
      × IsReached (try_chat display streams acquire_account).1
unfolding try_chat
try_chat-attempts display streams acquire_account =
    attempts-EndsWithin _
      (λ slot a.
        tally-attempt (λ j. true) (λ j. false) (λ j. false) display messages streams (λ s j. refl)
          slot a
        ∙ own_never slot.account_id)
      (reached-attempt display messages streams) acquire_account 0 6
