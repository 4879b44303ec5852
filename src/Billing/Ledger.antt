-- ===== src/Billing/Ledger.antt =====
-- src/db/billing.rs: the tables that the statements of src/billing.rs write, the cost that is read back, and the usage
-- reset of src/api/admin/users.rs. A table of rollups is a list by its key. How SQLite adds two integers is a parameter.
pub mod Upserts
pub mod Lifetime
pub mod Periods
use text.Mathlib.Text.{◌==◌ as str_eq}
use clewdr_hub.Common.{
  ℕ, String, Bool, ◌&&◌, Option, none, some, List, [], ◌∷◌, ◌++◌, if◌then◌else◌, unwrap_or, ◌==◌, ℤ,
  pos,
}
use clewdr_hub.Config.Reason.{text_eq}
use clewdr_hub.Billing.{BillingUsage, as_i64}
use clewdr_hub.Billing.Log.{
  Calendar, BillingContext, TerminalLogOptions, RequestLogRow, DbAnswer, Statement,
  insert_request_log, insert_request_log_audit, upsert_week, upsert_month,
  upsert_usage_lifetime_total, upsert_usage_daily_rollup, persist_terminal_request_log,
  current_week_bounds, current_month_bounds,
}

-- The counters of a rollup.
pub record Totals : Type 0 where
  pub request_count : ℤ
  pub input_tokens : ℤ
  pub output_tokens : ℤ
  pub cache_creation_tokens : ℤ
  pub cache_read_tokens : ℤ
  pub cost_nanousd : ℤ

-- What one request inserts.
unfoldable pub of_request : BillingUsage → ℤ → Totals
of_request u cost = record {
  request_count = pos 1;
  input_tokens = as_i64 u.input_tokens;
  output_tokens = as_i64 u.output_tokens;
  cache_creation_tokens = as_i64 u.cache_creation_tokens;
  cache_read_tokens = as_i64 u.cache_read_tokens;
  cost_nanousd = cost;
}

-- The keys of `usage_rollups` and of `usage_daily_rollups`.
pub record PeriodKey : Type 0 where
  pub user_id : ℕ
  pub period_type : String
  pub period_start : String

pub record DailyKey : Type 0 where
  pub user_id : ℕ
  pub model_key : List ℕ
  pub bucket_date : String

unfoldable pub period_key_eq : PeriodKey → PeriodKey → Bool
period_key_eq a b =
    a.user_id == b.user_id
    && str_eq a.period_type b.period_type
    && str_eq a.period_start b.period_start

unfoldable pub daily_key_eq : DailyKey → DailyKey → Bool
daily_key_eq a b =
    a.user_id == b.user_id && text_eq a.model_key b.model_key && str_eq a.bucket_date b.bucket_date

unfoldable pub user_eq : ℕ → ℕ → Bool
user_eq a b = a == b

-- The tables.
pub record Tables : Type 0 where
  pub request_logs : List RequestLogRow
  pub usage_rollups : List (PeriodKey × Totals)
  pub usage_lifetime_totals : List (ℕ × Totals)
  pub usage_daily_rollups : List (DailyKey × Totals)

abbrev pub no_tables : Tables
no_tables = record {
  request_logs = [];
  usage_rollups = [];
  usage_lifetime_totals = [];
  usage_daily_rollups = [];
}

-- The row of a key.
unfoldable pub find_row : {K : Type 0} → (K → K → Bool) → K → List (K × Totals) → Option Totals
find_row eq k [] = none
find_row eq k ((j, t) ∷ rows) = if eq j k then some t else find_row eq k rows

module _ (plus : ℤ → ℤ → ℤ) where
  -- `SET x = x + excluded.x`.
  unfoldable pub add_totals : Totals → Totals → Totals
  add_totals a b = record {
    request_count = plus a.request_count b.request_count;
    input_tokens = plus a.input_tokens b.input_tokens;
    output_tokens = plus a.output_tokens b.output_tokens;
    cache_creation_tokens = plus a.cache_creation_tokens b.cache_creation_tokens;
    cache_read_tokens = plus a.cache_read_tokens b.cache_read_tokens;
    cost_nanousd = plus a.cost_nanousd b.cost_nanousd;
  }

  -- `INSERT … ON CONFLICT (key) DO UPDATE`.
  unfoldable pub upsert :
      {K : Type 0} → (K → K → Bool) → K → Totals → List (K × Totals) → List (K × Totals)
  upsert eq k t [] = (k, t) ∷ []
  upsert eq k t ((j, u) ∷ rows) =
      let rest = upsert eq k t rows in if eq j k then (j, add_totals u t) ∷ rows else (j, u) ∷ rest

  abbrev pub upsert_usage_rollup : String → ℕ → String × String → BillingUsage → ℤ → Tables → Tables
  upsert_usage_rollup period_type user_id bounds usage cost t = record t {
    usage_rollups =
        upsert period_key_eq
          (record { user_id = user_id; period_type = period_type; period_start = bounds.0 })
          (of_request usage cost) t.usage_rollups;
  }

  unfoldable pub execute : Statement → Tables → Tables
  execute (insert_request_log row) t = record t { request_logs = t.request_logs ++ row ∷ [] }
  execute (insert_request_log_audit audit) t = t
  execute (upsert_week user_id bounds usage cost) t =
      upsert_usage_rollup "week" user_id bounds usage cost t
  execute (upsert_month user_id bounds usage cost) t =
      upsert_usage_rollup "month" user_id bounds usage cost t
  execute (upsert_usage_lifetime_total user_id usage cost) t = record t {
    usage_lifetime_totals = upsert user_eq user_id (of_request usage cost) t.usage_lifetime_totals;
  }
  execute (upsert_usage_daily_rollup user_id model_key date usage cost) t = record t {
    usage_daily_rollups =
        upsert daily_key_eq
          (record { user_id = user_id; model_key = model_key; bucket_date = date })
          (of_request usage cost) t.usage_daily_rollups;
  }

  unfoldable pub execute_all : List Statement → Tables → Tables
  execute_all [] t = t
  execute_all (st ∷ sts) t = execute_all sts (execute st t)

-- A request that has ended: the time of the write, what is written, and how the database answers.
pub record Call : Type 0 where
  pub now : ℤ
  pub ctx : BillingContext
  pub opts : TerminalLogOptions
  pub db : DbAnswer

module _ (plus : ℤ → ℤ → ℤ) (cal : Calendar) where
  -- The tables after a request, and after several.
  unfoldable pub record_call : Call → Tables → Tables
  record_call c t = execute_all plus (persist_terminal_request_log cal c.now c.ctx c.opts c.db).0 t

  unfoldable pub record_calls : List Call → Tables → Tables
  record_calls [] t = t
  record_calls (c ∷ cs) t = record_calls cs (record_call c t)

-- `DELETE FROM usage_rollups WHERE …`.
unfoldable pub delete_row :
    {K : Type 0} → (K → K → Bool) → K → List (K × Totals) → List (K × Totals)
delete_row eq k [] = []
delete_row eq k ((j, t) ∷ rows) =
    let rest = delete_row eq k rows in if eq j k then rest else (j, t) ∷ rest

-- `delete_usage_rollup`.
unfoldable pub delete_usage_rollup : ℕ → String → String → Tables → Tables
delete_usage_rollup user_id period_type period_start t = record t {
  usage_rollups =
      delete_row period_key_eq
        (record { user_id = user_id; period_type = period_type; period_start = period_start })
        t.usage_rollups;
}

-- The `period` of a usage reset; another text is refused.
pub data ResetPeriod : Type 0 where
  reset_week reset_month reset_all : ResetPeriod

-- The deletions of `reset_usage`.
unfoldable pub reset_usage : Calendar → ℤ → ℕ → ResetPeriod → Tables → Tables
reset_usage cal now id reset_week t =
    delete_usage_rollup id "week" (current_week_bounds cal now).0 t
reset_usage cal now id reset_month t =
    delete_usage_rollup id "month" (current_month_bounds cal now).0 t
reset_usage cal now id reset_all t =
    delete_usage_rollup id "month" (current_month_bounds cal now).0
      (delete_usage_rollup id "week" (current_week_bounds cal now).0 t)

-- What changes the totals: a request that ends, and a usage reset that the database carries out.
pub data UsageEvent : Type 0 where
  ended : Call → UsageEvent
  usage_reset : ℤ → ℕ → ResetPeriod → UsageEvent

module _ (plus : ℤ → ℤ → ℤ) (cal : Calendar) where
  unfoldable pub record_event : UsageEvent → Tables → Tables
  record_event (ended c) t = record_call plus cal c t
  record_event (usage_reset now id period) t = reset_usage cal now id period t

  unfoldable pub record_events : List UsageEvent → Tables → Tables
  record_events [] t = t
  record_events (e ∷ es) t = record_events es (record_event e t)

-- `get_current_period_cost`.
unfoldable pub get_current_period_cost : Tables → ℕ → String → String → ℤ
get_current_period_cost t user_id period_type period_start =
    elim (find_row period_key_eq
      (record { user_id = user_id; period_type = period_type; period_start = period_start })
      t.usage_rollups) [ none ↦ pos 0 | some row ↦ row.cost_nanousd ]
