-- ===== src/Examples/Bills.antt =====
-- The theorems on billing, at one user's requests.
use clewdr_hub.Common.{
  ℕ, ◌+◌, ◌*◌, ◌<◌, ◌≤◌, ◌≡◌, ◌≢◌, ◌↔◌, ◌⊎◌, refl, true, none, some, List, [], ◌∷◌, pos, ◌+ℤ◌,
  arith,
}
use clewdr_hub.Config.Decimal.{is_digit}
use clewdr_hub.Config.Reason.{codes, text_eq, strip_prefix}
use clewdr_hub.Billing.{BillingUsage, messages, cost_nanousd}
use clewdr_hub.Billing.Cost.{IsSmall, hundredths, cost_nanousd-IsSmall}
use clewdr_hub.Billing.Model.{
  to_ascii_lowercase, all_digits, exact_alias, dated_alias, normalize_model,
}
use clewdr_hub.Billing.Log.{Calendar, prices}
use clewdr_hub.Billing.Ledger.{
  UsageEvent, ended, usage_reset, reset_week, find_row, user_eq, no_tables, Call, record_calls,
}
use clewdr_hub.Billing.Ledger.Upserts.{add_all}
use clewdr_hub.Billing.Ledger.Lifetime.{accounted_rows, record_calls-lifetime}
use clewdr_hub.Billing.Ledger.Periods.{week, month}
use clewdr_hub.Billing.Quota.{
  allowed, quota_exceeded, db_failed, check_budget, against_budget, check_quota,
}
use clewdr_hub.Billing.Quota.Enforced.{
  IsSpent, IsWithin, cost_now, answers, check_quota-cost_now, check_quota-allowed,
}

abbrev usage : BillingUsage
usage = record {
  input_tokens = 1000;
  output_tokens = 20;
  cache_creation_tokens = 3;
  cache_read_tokens = 77;
  ttft_ms = none;
}

usage-IsSmall : IsSmall usage 3000 15000
usage-IsSmall = omega arith

cost_nanousd-IsSmall_example :
    (c : ℕ) × (cost_nanousd usage (pos 3000) (pos 15000) ≡ pos c)
    × (c * 100 ≤ hundredths usage 3000 15000)
    × (hundredths usage 3000 15000 < c * 100 + 200)
cost_nanousd-IsSmall_example = cost_nanousd-IsSmall usage 3000 15000 usage-IsSmall

dated_model :
    normalize_model (codes "Claude-3-5-Sonnet-20241022") ≡ some (codes "claude-sonnet-4-0")
unfolding normalize_model exact_alias text_eq to_ascii_lowercase dated_alias strip_prefix all_digits
    is_digit
dated_model = refl

-- A calendar in which every day is the first of a month and a Monday.
abbrev calendar : Calendar
calendar = record {
  date_of = λ t. record { year = pos 2026; month = 1; day = 1 };
  num_days_from_monday = λ t. 0;
  days_after = λ d n. d;
  days_before = λ d n. d;
  midnight = λ d. "2026-01-01T00:00:00Z";
  to_rfc3339 = λ t. "2026-01-01T12:00:00Z";
  bucket_date = λ t. "2026-01-01";
  trim = λ s. s;
}

abbrev call : Call
call = record {
  now = pos 70;
  ctx = record {
    user_id = some 4;
    api_key_id = some 1;
    account_id = some 2;
    model_raw = codes "claude-opus-5";
    request_id = "r1";
    started_at = pos 60;
    audit = none;
  };
  opts = record {
    request_type = messages;
    stream = true;
    status = "ok";
    http_status = some 200;
    usage = some usage;
    error_code = none;
    error_message = none;
    update_rollups = true;
    response_body = none;
  };
  db = record {
    pricing = λ key. prices (pos 3000) (pos 15000);
    begins = true;
    runs = λ st. true;
    commits = true;
  };
}

abbrev calls : List Call
calls = call ∷ call ∷ []

record_calls-lifetime_example :
    find_row user_eq 4 (record_calls ◌+ℤ◌ calendar calls no_tables).usage_lifetime_totals
    ≡ add_all ◌+ℤ◌ none (accounted_rows 4 (record_calls ◌+ℤ◌ calendar calls no_tables).request_logs)
record_calls-lifetime_example = record_calls-lifetime ◌+ℤ◌ calendar 4 calls

-- A request, a reset of the week, and a request after it.
abbrev events : List UsageEvent
events = ended call ∷ usage_reset (pos 75) 4 reset_week ∷ ended call ∷ []

check_quota-cost_now_example :
    ((check_quota calendar (pos 80) (answers ◌+ℤ◌ calendar (pos 80) 4 events) (some (pos 100)) none
        ≡ quota_exceeded)
      ↔ (IsSpent (some (pos 100)) (cost_now ◌+ℤ◌ calendar (pos 80) 4 events week)
          ⊎ IsSpent none (cost_now ◌+ℤ◌ calendar (pos 80) 4 events month)))
    × (check_quota calendar (pos 80) (answers ◌+ℤ◌ calendar (pos 80) 4 events) (some (pos 100)) none
        ≢ db_failed)
check_quota-cost_now_example =
    check_quota-cost_now ◌+ℤ◌ calendar (pos 80) 4 events (some (pos 100)) none

low_answer : check_quota calendar (pos 80) (λ p s. some (pos 99)) (some (pos 100)) none ≡ allowed
unfolding check_quota check_budget against_budget
low_answer = refl

check_quota-allowed_example :
    IsWithin (some (pos 100)) (some (pos 99)) × IsWithin none (some (pos 99))
check_quota-allowed_example =
    check_quota-allowed calendar (pos 80) (λ p s. some (pos 99)) (some (pos 100)) none low_answer
