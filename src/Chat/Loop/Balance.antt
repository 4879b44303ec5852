-- ===== src/Chat/Loop/Balance.antt =====
-- src/claude_code_state/chat.rs: every slot that the loops take is given back once.
use clewdr_hub.Common.{
  ℕ, ◌+◌, ◌≡◌, refl, ◌∙◌, Bool, true, false, Bool-cases, inl, inr, Option, none, some, List, [],
  ◌∷◌, ◌++◌, if◌then◌else◌, arith, count,
}
use clewdr_hub.Config.Slot.{AccountSlot}
use clewdr_hub.Failure.{FailureSource, count_tokens, ClewdrError}
use clewdr_hub.Chat.{Effect, handed_over, Answers, on_account, Writes}
use clewdr_hub.Chat.Loop.{settle, attempt, count_attempt, cookie_disallows}
use clewdr_hub.Chat.Upstream.{Sent, check_token, has_released}
use clewdr_hub.Chat.Loop.Requests.{IsSent, timeout_upstream-IsSent, send_by_status-IsSent}
use clewdr_hub.Chat.Loop.Slots.{
  slot_test, own, tally-sent, tally-release, tally-on_failure, tally-append,
}

module _ (d r h : ℕ → Bool) where
  abbrev tally : List Effect → ℕ
  tally = count (slot_test d r h)

  module _ (display : ClewdrError → List ℕ) (source : FailureSource) (streams : Bool)
      (same : streams ≡ true → (j : ℕ) → h j ≡ r j) where
    tally-handed :
        (account_id : Option ℕ)
        → streams ≡ true
        → tally (on_account account_id (λ id. handed_over id ∷ [])) ≡ own r account_id
    unfolding count
    tally-handed none s = refl
    tally-handed (some id) s = rw (same s id) (omega arith)

    tally-settle :
        (slot : AccountSlot) (db : Option Writes) (released : Bool) (result : Option ClewdrError)
        → tally (settle display source streams slot db released result).0
          ≡ (if released then 0 else own r slot.account_id)
    unfolding count
    tally-settle slot db released (some e) =
        tally-on_failure d r h display source db slot.account_id slot.auth_method released e
    tally-settle slot db released none = elim (Bool-cases streams) [
      | inr s ↦ rw s (tally-release d r h released slot.account_id)
      | inl s ↦ elim (Bool-cases released) [
        | inl e ↦ rw (s, e) refl
        | inr e ↦ rw (s, e) (tally-handed slot.account_id s)
      ]
    ]

    tally-sent_settled :
        (slot : AccountSlot) (db : Option Writes) (sent : Sent)
        → IsSent slot.account_id sent.0
        → tally (sent.0 ++ (settle display source streams slot db (has_released sent.0) sent.1).0)
          ≡ own r slot.account_id
    tally-sent_settled slot db sent s =
        tally-append d r h sent.0 _
        ∙ rw
            (
              tally-sent d r h slot.account_id sent.0 s,
              tally-settle slot db (has_released sent.0) sent.1,
            )
            (either_way (has_released sent.0) (own r slot.account_id))
      where
        either_way : (b : Bool) (n : ℕ) → (if b then n else 0) + (if b then 0 else n) ≡ n
        either_way b n = ground arith

    pub tally-attempt :
        (slot : AccountSlot) (a : Answers)
        → tally (attempt display source streams slot a).0 ≡ own r slot.account_id
    unfolding attempt
    tally-attempt slot a = tally-sent_settled slot a.db _ (
        timeout_upstream-IsSent slot.account_id a.timed_out _ (
          send_by_status-IsSent slot.auth_method (check_token a.is_expired slot.token)
            slot.account_id a))

  pub tally-count_attempt :
      (display : ClewdrError → List ℕ) (slot : AccountSlot) (a : Answers)
      → tally (count_attempt display slot a).0 ≡ own r slot.account_id
  unfolding count_attempt
  tally-count_attempt display slot a = elim (Bool-cases (cookie_disallows display slot)) [
    | inl q ↦ rw (count_attempt, q) (tally-release d r h false slot.account_id)
    | inr q ↦
        rw (count_attempt, q)
          (tally-attempt display count_tokens false (λ e j. cc) slot
            (record a { released = false }))
  ]
