-- ===== src/Chat/Loop/Conserved.antt =====
-- src/claude_code_state/chat.rs: the slots of a whole run of the loops.
use clewdr_hub.Common.{
  ℕ, zero, suc, ◌+◌, ◌≡◌, refl, ◌∙◌, Bool, false, ◌&&◌, Bool-cases, inl, inr, Option, none, some,
  List, [], ◌∷◌, ◌++◌, if◌then◌else◌, is_some, ◌==◌, arith, count, count-append,
}
use clewdr_hub.Config.Reason.{AuthMethod, cookie, oauth, api_key}
use clewdr_hub.Config.Slot.{AccountSlot}
use clewdr_hub.Failure.{
  AccountFailureAction, terminal_auth, terminal_disabled, transient_upstream, internal_failure,
  cooldown, FailureSource, messages, count_tokens, ClewdrError, invalid_cookie, other,
  claude_http_error, transport, whatever, request_token_error, AccountFailureContext,
}
use clewdr_hub.Chat.{
  Effect, dispatched, ChatResult, response, upstream_cooling_down, too_many_retries, unreachable,
  failure, acquire_failure, Answers, Acquisition, refused, unusable, acquired, on_account,
  should_retry_api_key_transient, Attempt, Writes,
}
use clewdr_hub.Chat.Loop.{
  oauth_failure, api_key_verdict, api_key_failure, cookie_error, cookie_failure, on_failure, settle,
  attempt, count_attempt, cookie_disallows, attempts, try_chat, try_count_tokens,
  classify_oauth_failure, acquire_then, then_loop,
}
use clewdr_hub.Chat.Loop.Slots.{slot_test, own}
use clewdr_hub.Chat.Loop.Balance.{tally-attempt, tally-count_attempt}

-- The error of an account that was dispatched and could not be used.
abbrev pub lost : ℕ → ChatResult → ℕ
lost id (acquire_failure (some j) e) = if j == id then 1 else 0
lost id (acquire_failure none e) = 0
lost id response = 0
lost id upstream_cooling_down = 0
lost id too_many_retries = 0
lost id unreachable = 0
lost id (failure e) = 0

abbrev lost_end : ℕ → Option ChatResult → ℕ
lost_end id none = 0
lost_end id (some result) = lost id result

module _ (display : ClewdrError → List ℕ) (id : ℕ) (source : FailureSource) where
  lost-api_key_verdict :
      (action : AccountFailureAction) (context : AccountFailureContext) (db : Option Writes)
      (account_id : Option ℕ) (e : ClewdrError)
      → lost_end id (api_key_verdict display action context db account_id e).1 ≡ 0
  lost-api_key_verdict terminal_auth context db account_id e = refl
  lost-api_key_verdict terminal_disabled context db account_id e = refl
  lost-api_key_verdict transient_upstream context db account_id e =
      elim (Bool-cases (should_retry_api_key_transient e)) [ inl q ↦ rw q refl | inr q ↦ rw q refl ]
  lost-api_key_verdict (cooldown reset) context db account_id e = refl
  lost-api_key_verdict internal_failure context db account_id e = refl

  lost-cookie_error :
      (db : Option Writes) (account_id : Option ℕ) (e : ClewdrError)
      → lost_end id (cookie_error display source db account_id e).1 ≡ 0
  lost-cookie_error db account_id (invalid_cookie reason) = refl
  lost-cookie_error db account_id (claude_http_error code text) = refl
  lost-cookie_error db account_id (whatever message) = refl
  lost-cookie_error db account_id request_token_error = refl
  lost-cookie_error db account_id transport = refl
  lost-cookie_error db account_id other = refl

  lost-on_failure :
      (method : AuthMethod) (db : Option Writes) (released : Bool) (account_id : Option ℕ)
      (e : ClewdrError)
      → lost_end id (on_failure display method source db released account_id e).1 ≡ 0
  unfolding oauth_failure api_key_failure cookie_failure
  lost-on_failure oauth db released account_id e =
      elim (Bool-cases (is_some (classify_oauth_failure display e source).cooldown_until)) [
        | inl q ↦ rw q refl
        | inr q ↦ rw q refl
      ]
  lost-on_failure api_key db released account_id e = lost-api_key_verdict _ _ db account_id e
  lost-on_failure cookie db released account_id e = lost-cookie_error db account_id e

  lost-settle :
      (streams : Bool) (slot : AccountSlot) (db : Option Writes) (released : Bool)
      (error : Option ClewdrError)
      → lost_end id (settle display source streams slot db released error).1 ≡ 0
  lost-settle streams slot db released none = refl
  lost-settle streams slot db released (some e) =
      lost-on_failure slot.auth_method db released slot.account_id e

  lost-attempt :
      (streams : Bool) (slot : AccountSlot) (a : Answers)
      → lost_end id (attempt display source streams slot a).1 ≡ 0
  unfolding attempt
  lost-attempt streams slot a = lost-settle streams slot a.db _ _

lost-count_attempt :
    (display : ClewdrError → List ℕ) (id : ℕ) (slot : AccountSlot) (a : Answers)
    → lost_end id (count_attempt display slot a).1 ≡ 0
unfolding count_attempt
lost-count_attempt display id slot a = elim (Bool-cases (cookie_disallows display slot)) [
  | inl q ↦ rw (count_attempt, q) refl
  | inr q ↦
      rw (count_attempt, q)
        (lost-attempt display id count_tokens false slot (record a { released = false }))
]

-- The pool gives out a slot of an account, and it gets one back: from the loop, or, with a flag, from the body of the
-- response.
abbrev pub takes : ℕ → Effect → Bool
takes id = slot_test (λ j. j == id) (λ j. false) (λ j. false)

abbrev pub gives_back : Bool → ℕ → Effect → Bool
gives_back streams id = slot_test (λ j. false) (λ j. j == id) (λ j. streams && (j == id))

pub appended :
    (p : Effect → Bool) (xs ys zs : List Effect)
    → count p (xs ++ ys ++ zs) ≡ count p xs + count p ys + count p zs
appended p xs ys zs = omega (arith, count-append p (xs ++ ys) zs, count-append p xs ys)

module _ (streams : Bool) (id : ℕ) where
  abbrev Balanced : List Effect × ChatResult → Type 0
  Balanced run = count (takes id) run.0 ≡ count (gives_back streams id) run.0 + lost id run.1

  taken_of :
      (account_id : Option ℕ)
      → (count (takes id) (on_account account_id (λ j. dispatched j ∷ []))
          ≡ own (λ j. j == id) account_id)
        × (count (gives_back streams id) (on_account account_id (λ j. dispatched j ∷ [])) ≡ 0)
  unfolding count
  taken_of none = (refl, refl)
  taken_of (some j) = (omega arith, refl)

  then_loop-Balanced :
      (account_id : Option ℕ) (t : Attempt) (rest : List Effect × ChatResult)
      → count (takes id) t.0 ≡ 0
      → count (gives_back streams id) t.0 ≡ own (λ j. j == id) account_id
      → lost_end id t.1 ≡ 0
      → Balanced rest
      → Balanced (then_loop account_id t rest)
  unfolding count
  then_loop-Balanced account_id (es, none) rest p q l b = omega (
    arith,
    p,
    q,
    b,
    appended (takes id) _ es rest.0,
    appended (gives_back streams id) _ es rest.0,
    taken_of account_id,
  )
  then_loop-Balanced account_id (es, some result) rest p q l b = omega (
    arith,
    p,
    q,
    l,
    appended (takes id) _ es [],
    appended (gives_back streams id) _ es [],
    taken_of account_id,
  )

  acquire_then-Balanced :
      (turn : AccountSlot → Answers → Attempt)
      → ((slot : AccountSlot) (a : Answers) → count (takes id) (turn slot a).0 ≡ 0)
      → ((slot : AccountSlot) (a : Answers)
          → count (gives_back streams id) (turn slot a).0 ≡ own (λ j. j == id) slot.account_id)
      → ((slot : AccountSlot) (a : Answers) → lost_end id (turn slot a).1 ≡ 0)
      → (acquire_account : ℕ → Acquisition) (acquisition : Acquisition)
        (rest : List Effect × ChatResult)
      → Balanced rest
      → Balanced (acquire_then turn acquire_account acquisition rest)
  unfolding count
  acquire_then-Balanced turn p q l acquire_account (refused e) rest b = refl
  acquire_then-Balanced turn p q l acquire_account (unusable none e) rest b = refl
  acquire_then-Balanced turn p q l acquire_account (unusable (some j) e) rest b = omega arith
  acquire_then-Balanced turn p q l acquire_account (acquired slot a) rest b =
      then_loop-Balanced slot.account_id (turn slot a) rest (p slot a) (q slot a) (l slot a) b

  attempts-Balanced :
      (turn : AccountSlot → Answers → Attempt)
      → ((slot : AccountSlot) (a : Answers) → count (takes id) (turn slot a).0 ≡ 0)
      → ((slot : AccountSlot) (a : Answers)
          → count (gives_back streams id) (turn slot a).0 ≡ own (λ j. j == id) slot.account_id)
      → ((slot : AccountSlot) (a : Answers) → lost_end id (turn slot a).1 ≡ 0)
      → (acquire_account : ℕ → Acquisition) (i left : ℕ)
      → Balanced (attempts turn acquire_account i left)
  unfolding attempts count
  attempts-Balanced turn p q l acquire_account i zero = refl
  attempts-Balanced turn p q l acquire_account i (suc left) =
      acquire_then-Balanced turn p q l acquire_account (acquire_account i) _
        (attempts-Balanced turn p q l acquire_account (i + 1) left)

pub own_never : (account_id : Option ℕ) → own (λ j. false) account_id ≡ 0
own_never none = refl
own_never (some id) = refl

-- Every slot that the pool gives out for a run of try_chat is given back to it once, by the loop or by the handle
-- that the request holds, whichever attempt fails, times out or ends the run; only a response with a streamed body takes
-- it along to the guards of the body, and only an account whose acquisition fails after its dispatch keeps it.
pub try_chat-slots :
    (display : ClewdrError → List ℕ) (streams : Bool) (acquire_account : ℕ → Acquisition) (id : ℕ)
    → count (takes id) (try_chat display streams acquire_account).0
      ≡ count (gives_back streams id) (try_chat display streams acquire_account).0
        + lost id (try_chat display streams acquire_account).1
unfolding try_chat
try_chat-slots display streams acquire_account id =
    attempts-Balanced streams id _
      (λ slot a.
        tally-attempt (λ j. j == id) (λ j. false) (λ j. false) display messages streams
          (λ s j. refl) slot a
        ∙ own_never slot.account_id)
      (tally-attempt (λ j. false) (λ j. j == id) (λ j. streams && (j == id)) display messages
        streams (λ s j. rw s refl))
      (lost-attempt display id messages streams) acquire_account 0 _

-- Every slot that the pool gives out for a run of try_count_tokens is given back by the loop, except that of an account
-- whose acquisition fails after its dispatch.
pub try_count_tokens-slots :
    (display : ClewdrError → List ℕ) (acquire_account : ℕ → Acquisition) (id : ℕ)
    → count (takes id) (try_count_tokens display acquire_account).0
      ≡ count (gives_back false id) (try_count_tokens display acquire_account).0
        + lost id (try_count_tokens display acquire_account).1
unfolding try_count_tokens
try_count_tokens-slots display acquire_account id =
    attempts-Balanced false id _
      (λ slot a.
        tally-count_attempt (λ j. j == id) (λ j. false) (λ j. false) display slot a
        ∙ own_never slot.account_id)
      (tally-count_attempt (λ j. false) (λ j. j == id) (λ j. false && (j == id)) display)
      (lost-count_attempt display id) acquire_account 0 _
