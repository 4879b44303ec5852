-- ===== src/Billing/Quota.antt =====
-- src/billing.rs: `check_quota`, which refuses a request of a user whose budget is spent. The times of the day are the
-- crate chrono's, and the answers of the database are a function.
pub mod Enforced
use clewdr_hub.Common.{
  ℕ, String, Bool, Option, none, some, filter_option, if◌then◌else◌, ltbℤ, lebℤ, ℤ, pos,
}
use clewdr_hub.Billing.Log.{Calendar, current_week_bounds, current_month_bounds}

-- What `check_quota` returns: `Ok`, `QuotaExceeded`, or the error of the database.
pub data QuotaResult : Type 0 where
  allowed quota_exceeded db_failed : QuotaResult

-- The cost so far against a budget; `none` is an error of the database.
unfoldable pub against_budget : Option ℤ → ℤ → QuotaResult → QuotaResult
against_budget none budget next = db_failed
against_budget (some current) budget next = if lebℤ budget current then quota_exceeded else next

-- One period: a budget that is missing or not positive does not count.
unfoldable pub check_budget : Option ℤ → (Option ℤ) → QuotaResult → QuotaResult
check_budget budget current next = elim (filter_option (λ b. ltbℤ (pos 0) b) budget) [
  | none ↦ next
  | some b ↦ against_budget current b next
]

-- `check_quota`. `cost` is `get_current_period_cost` by the kind and the start of the period.
unfoldable pub check_quota :
    Calendar → ℤ → (String → String → Option ℤ) → Option ℤ → Option ℤ → QuotaResult
check_quota cal now cost weekly_budget monthly_budget =
    check_budget weekly_budget (cost "week" (current_week_bounds cal now).0)
      (check_budget monthly_budget (cost "month" (current_month_bounds cal now).0) allowed)
