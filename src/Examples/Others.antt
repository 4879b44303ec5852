-- ===== src/Examples/Others.antt =====
-- The theorems on the limiter, on failures and on the slots, at concrete inputs.
use clewdr_hub.Common.{get, ℕ, ◌≡◌, ◌≢◌, refl, none, some, List, [], ◌∷◌, arith, pos}
use clewdr_hub.Config.Decimal.{IsI64}
use clewdr_hub.Config.Reason.{
  banned, restricted as limited, too_many_request, oauth, api_key, from_db_string, to_db_string,
}
use clewdr_hub.Config.Reason.RoundTrip.{from_db_string-to_db_string}
use clewdr_hub.Config.Usage.{no_usage, sonnet, Windows, add_and_bucket_usage}
use clewdr_hub.Config.Usage.Bounds.{IsConsistent, AreConsistent, add_and_bucket_usage-AreConsistent}
use clewdr_hub.Config.Runtime.{RuntimeStateParams, to_runtime_params, apply_runtime_state}
use clewdr_hub.Config.Runtime.Laws.{SameCredential, apply-to_runtime_params}
use clewdr_hub.Limiter.{
  UserLimiterMap, UserLimiter, Granted, fresh_limiter, at_least_one, put, acquire,
}
use clewdr_hub.Limiter.Window.{decisions, reference, decisions-reference}
use clewdr_hub.Limiter.Budget.{Origin, Charged, acquire-Charged}
use clewdr_hub.Failure.{
  ClewdrError, invalid_cookie, messages, probe_oauth, cooldown, to_reason, classify_account_failure,
}
use clewdr_hub.Failure.Verdict.{
  Agrees, classify_account_failure-Agrees, classify_account_failure-api_key,
  classify_account_failure-to_reason,
}
use clewdr_hub.Examples.Inputs.{permits, no_users, key_slot, parked}

decisions-reference_example :
    decisions 2 (fresh_limiter permits 3 2) (0 ∷ 5 ∷ 9 ∷ []) ≡ reference 2 [] (0 ∷ 5 ∷ 9 ∷ [])
decisions-reference_example =
    decisions-reference 2 (fresh_limiter permits 3 2) 9 (0 ∷ 5 ∷ 9 ∷ []) refl
      (omega arith, (omega arith, (omega arith, omega arith)))

acquire-Charged_example :
    (t : UserLimiterMap ℕ) × (h : ℕ) × (l : UserLimiter ℕ) × (after : UserLimiter ℕ)
    × (result : Granted) × (acquire permits no_users 1 (pos 3) (pos 2) 9
        ≡ some (put t h after, result))
    × (get h t.limiters ≡ some l)
    × Origin permits no_users 1 (at_least_one (pos 3)) (at_least_one (pos 2)) t h l
    × Charged permits (at_least_one (pos 2)) 9 l after h result
acquire-Charged_example = acquire-Charged permits no_users 1 (pos 3) (pos 2) 9

abbrev shown : ClewdrError → List ℕ
shown err = []

not_api_key : some oauth ≢ some api_key
not_api_key e = cc

classify_account_failure-Agrees_example :
    Agrees
      (classify_account_failure shown
        (invalid_cookie (too_many_request (pos 9)))
        messages
        none
        (some oauth)).action
      (to_reason
        (classify_account_failure shown
          (invalid_cookie (too_many_request (pos 9)))
          messages
          none
          (some oauth)).normalized_reason)
classify_account_failure-Agrees_example =
    classify_account_failure-Agrees shown (invalid_cookie (too_many_request (pos 9))) messages none
      (some oauth) not_api_key

abbrev limited_call : ClewdrError
limited_call = invalid_cookie (too_many_request (pos 9))

classify_account_failure-api_key_example :
    ((classify_account_failure shown limited_call messages none (some api_key)).action
      ≢ cooldown (pos 9))
    × ((classify_account_failure shown limited_call messages none (some api_key)).normalized_reason
        ≡ (classify_account_failure shown limited_call messages none
            (some oauth)).normalized_reason)
    × ((classify_account_failure shown limited_call messages none
          (some api_key)).upstream_http_status
        ≡ (classify_account_failure shown limited_call messages none
            (some oauth)).upstream_http_status)
classify_account_failure-api_key_example =
    classify_account_failure-api_key shown limited_call messages none (pos 9) (some oauth)

classify_account_failure-to_reason_example :
    to_reason
      (classify_account_failure shown
        (invalid_cookie banned)
        probe_oauth
        none
        none).normalized_reason
    ≡ some banned
classify_account_failure-to_reason_example =
    classify_account_failure-to_reason shown banned probe_oauth none none

small_IsI64 : IsI64 (pos 1712)
small_IsI64 = omega arith

from_db_string-to_db_string_example :
    from_db_string (to_db_string (limited (pos 1712))) ≡ limited (pos 1712)
from_db_string-to_db_string_example = from_db_string-to_db_string (limited (pos 1712)) small_IsI64

abbrev unused : Windows
unused = record {
  session_usage = no_usage;
  weekly_usage = no_usage;
  weekly_sonnet_usage = no_usage;
  weekly_opus_usage = no_usage;
  lifetime_usage = no_usage;
}

no_usage-IsConsistent : IsConsistent no_usage
no_usage-IsConsistent = record {
  input = omega arith;
  output = omega arith;
  sonnet_input = omega arith;
  sonnet_output = omega arith;
  opus_input = omega arith;
  opus_output = omega arith;
}

unused-AreConsistent : AreConsistent unused
unused-AreConsistent = record {
  session = no_usage-IsConsistent;
  weekly = no_usage-IsConsistent;
  weekly_sonnet = no_usage-IsConsistent;
  weekly_opus = no_usage-IsConsistent;
  lifetime = no_usage-IsConsistent;
  sonnet_only_input = refl;
  sonnet_only_output = refl;
  opus_only_input = refl;
  opus_only_output = refl;
}

add_and_bucket_usage-AreConsistent_example :
    AreConsistent (add_and_bucket_usage 100 20 sonnet unused)
add_and_bucket_usage-AreConsistent_example =
    add_and_bucket_usage-AreConsistent 100 20 sonnet unused unused-AreConsistent

abbrev late : RuntimeStateParams
late = to_runtime_params (parked 2 200)

apply-to_runtime_params_example :
    (to_runtime_params (apply_runtime_state late (key_slot 1)) ≡ late)
    × SameCredential (key_slot 1) (apply_runtime_state late (key_slot 1))
    × (apply_runtime_state (to_runtime_params (key_slot 1)) (key_slot 1) ≡ key_slot 1)
apply-to_runtime_params_example = apply-to_runtime_params late (key_slot 1)
