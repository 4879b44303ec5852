-- ===== src/Chat/Loop/Slots.antt =====
-- src/claude_code_state/chat.rs: what the loops take of the pool they give back.
use clewdr_hub.Common.{
  ℕ, ◌+◌, ◌≡◌, refl, ◌∙◌, Bool, true, false, Bool-cases, Option-cases, inl, inr, Option, none, some,
  List, [], ◌∷◌, ◌++◌, if◌then◌else◌, is_some, arith, count, count-append, ℤ,
}
use clewdr_hub.Config.Reason.{Reason, null, AuthMethod, cookie, oauth, api_key}
use clewdr_hub.Failure.{
  AccountFailureAction, terminal_auth, terminal_disabled, transient_upstream, internal_failure,
  cooldown, FailureSource, ClewdrError, invalid_cookie, other, claude_http_error, transport,
  whatever, request_token_error, AccountFailureContext,
}
use clewdr_hub.Chat.{
  Effect, dispatched, slot_released, handed_over, auth_error_set, runtime_released, disabled_set,
  invalidated, reset_time_set, failure_set, on_account, mark_oauth_account_auth_error,
  mark_oauth_account_disabled, mark_oauth_account_cooldown, mark_api_key_account_auth_error,
  mark_api_key_account_disabled, persist_last_failure, release_slot_only, release_account, Writes,
}
use clewdr_hub.Chat.Loop.{
  mark_oauth_failure, oauth_failure, api_key_verdict, api_key_failure, cookie_error, cookie_failure,
  on_failure, classify_oauth_failure, is_oauth_auth_failure,
}
use clewdr_hub.Chat.Upstream.{has_released}
use clewdr_hub.Chat.Loop.Requests.{IsSent}

-- A test of the effects on slots.
abbrev pub slot_test : (ℕ → Bool) → (ℕ → Bool) → (ℕ → Bool) → Effect → Bool
slot_test d r h (dispatched j) = d j
slot_test d r h (slot_released j) = r j
slot_test d r h (handed_over j) = h j
slot_test d r h (auth_error_set j) = false
slot_test d r h (runtime_released j reason) = false
slot_test d r h (disabled_set j reason) = false
slot_test d r h (invalidated j reason) = false
slot_test d r h (reset_time_set j reset) = false
slot_test d r h (failure_set j context) = false

abbrev pub own : (ℕ → Bool) → Option ℕ → ℕ
own r none = 0
own r (some j) = if r j then 1 else 0

module _ (d r h : ℕ → Bool) where
  abbrev tally : List Effect → ℕ
  tally = count (slot_test d r h)

  pub tally-append : (xs ys : List Effect) → tally (xs ++ ys) ≡ tally xs + tally ys
  tally-append xs ys = count-append (slot_test d r h) xs ys

  pub tally-sent :
      (account_id : Option ℕ) (es : List Effect)
      → IsSent account_id es
      → tally es ≡ (if has_released es then own r account_id else 0)
  unfolding IsSent count has_released
  tally-sent account_id [] s = refl
  tally-sent account_id (runtime_released j reason ∷ es) s =
      omega (arith, tally-sent account_id es s)
  tally-sent account_id (slot_released j ∷ es) s = rw (s.0, s.1) (omega arith)
  tally-sent account_id (_ ∷ es) s = absurd s

  pub tally-release :
      (released : Bool) (account_id : Option ℕ)
      → tally (release_slot_only released account_id) ≡ (if released then 0 else own r account_id)
  unfolding count
  tally-release true account_id = refl
  tally-release false none = refl
  tally-release false (some id) = omega arith

  tally-release_account :
      (reason : Option Reason) (account_id : Option ℕ)
      → tally (release_account reason account_id) ≡ 0
  unfolding count
  tally-release_account reason none = refl
  tally-release_account reason (some id) = refl

  tally-mark_auth_error :
      (db : Option Writes) (id : ℕ) (context : AccountFailureContext)
      → (tally (mark_oauth_account_auth_error db id context) ≡ 0)
        × (tally (mark_api_key_account_auth_error db id context) ≡ 0)
  unfolding count mark_oauth_account_auth_error mark_api_key_account_auth_error
  tally-mark_auth_error none id context = (refl, refl)
  tally-mark_auth_error (some db) id context = elim (Bool-cases db.auth_error) [
    | inl e ↦ rw e (refl, refl)
    | inr e ↦ rw e (refl, refl)
  ]

  tally-mark_disabled :
      (db : Option Writes) (id : ℕ) (reason : Reason) (context : AccountFailureContext)
      → (tally (mark_oauth_account_disabled db id context) ≡ 0)
        × (tally (mark_api_key_account_disabled db id reason context) ≡ 0)
  unfolding count mark_oauth_account_disabled mark_api_key_account_disabled
  tally-mark_disabled none id reason context = (refl, refl)
  tally-mark_disabled (some db) id reason context = elim (Bool-cases db.disable) [
    | inl e ↦ rw e (refl, refl)
    | inr e ↦ rw e (refl, refl)
  ]

  tally-mark_cooldown :
      (db : Option Writes) (id : ℕ) (reset : ℤ)
      → tally (mark_oauth_account_cooldown db id reset) ≡ 0
  unfolding count mark_oauth_account_cooldown
  tally-mark_cooldown none id reset = refl
  tally-mark_cooldown (some db) id reset = elim (Bool-cases db.reset) [
    | inl e ↦ rw e refl
    | inr e ↦ rw e refl
  ]

  tally-persist :
      (db : Option Writes) (id : ℕ) (context : AccountFailureContext)
      → tally (persist_last_failure db id context) ≡ 0
  unfolding count persist_last_failure
  tally-persist none id context = refl
  tally-persist (some db) id context = refl

  tally-on_account :
      (account_id : Option ℕ) (f : ℕ → List Effect)
      → ((id : ℕ) → tally (f id) ≡ 0)
      → tally (on_account account_id f) ≡ 0
  unfolding count
  tally-on_account none f quiet = refl
  tally-on_account (some id) f quiet = quiet id

  module _ (display : ClewdrError → List ℕ) (source : FailureSource) (db : Option Writes)
      (account_id : Option ℕ) where
    tally-mark_oauth_failure :
        (e : ClewdrError) (verdict : _) (id : ℕ)
        → tally (mark_oauth_failure display db e verdict id) ≡ 0
    unfolding mark_oauth_failure count
    tally-mark_oauth_failure e verdict id = elim (Bool-cases verdict.is_disabled) [
      | inl q ↦ rw (mark_oauth_failure, q) (tally-mark_disabled db id null _).0
      | inr q ↦ elim (Option-cases verdict.cooldown_until) [
        | inr (reset, c) ↦ rw (mark_oauth_failure, q, c) (tally-mark_cooldown db id reset)
        | inl c ↦ elim (Bool-cases (is_oauth_auth_failure display e)) [
          | inl f ↦ rw (mark_oauth_failure, q, c, f) (tally-mark_auth_error db id _).0
          | inr f ↦ rw (mark_oauth_failure, q, c, f) refl
        ]
      ]
    ]

    tally-api_key_verdict :
        (action : AccountFailureAction) (context : AccountFailureContext) (e : ClewdrError)
        → tally (api_key_verdict display action context db account_id e).0 ≡ 0
    unfolding count
    tally-api_key_verdict terminal_auth context e =
        tally-on_account account_id _ (λ id. (tally-mark_auth_error db id context).1)
    tally-api_key_verdict terminal_disabled context e =
        tally-on_account account_id _ (λ id. (tally-mark_disabled db id _ context).1)
    tally-api_key_verdict transient_upstream context e = tally-release_account none account_id
    tally-api_key_verdict (cooldown reset) context e = refl
    tally-api_key_verdict internal_failure context e = refl

    tally-cookie_error :
        (e : ClewdrError) → tally (cookie_error display source db account_id e).0 ≡ 0
    unfolding count
    tally-cookie_error (invalid_cookie reason) =
        count-append (slot_test d r h) (on_account account_id _)
          (release_account (some reason) account_id)
        ∙ rw
            (
              tally-on_account account_id _ (λ id. tally-persist db id _),
              tally-release_account (some reason) account_id,
            )
            refl
    tally-cookie_error (claude_http_error code text) = refl
    tally-cookie_error (whatever message) = refl
    tally-cookie_error request_token_error = refl
    tally-cookie_error transport = refl
    tally-cookie_error other = refl

    tally-middle :
        (xs ys zs : List Effect) → tally xs ≡ 0 → tally zs ≡ 0 → tally (xs ++ ys ++ zs) ≡ tally ys
    tally-middle xs ys zs p q = tally-append (xs ++ ys) zs ∙ omega (arith, tally-append xs ys, p, q)

    tally-pool_reason :
        (reason : Option Reason)
        → tally (if is_some reason then release_account reason account_id else []) ≡ 0
    unfolding count
    tally-pool_reason none = refl
    tally-pool_reason (some reason) = tally-release_account (some reason) account_id

    pub tally-on_failure :
        (method : AuthMethod) (released : Bool) (e : ClewdrError)
        → tally (on_failure display method source db released account_id e).0
          ≡ (if released then 0 else own r account_id)
    unfolding oauth_failure api_key_failure cookie_failure
    tally-on_failure oauth released e =
        tally-middle _ (release_slot_only released account_id) _
          (tally-on_account account_id _
            (tally-mark_oauth_failure e (classify_oauth_failure display e source)))
          (tally-pool_reason (classify_oauth_failure display e source).pool_reason)
        ∙ tally-release released account_id
    tally-on_failure api_key released e =
        tally-append (release_slot_only released account_id) _
        ∙ rw (tally-release released account_id, tally-api_key_verdict _ _ e) (omega arith)
    tally-on_failure cookie released e =
        tally-append (release_slot_only released account_id) _
        ∙ rw (tally-release released account_id, tally-cookie_error e) (omega arith)
