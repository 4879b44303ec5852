-- ===== src/Billing/Log.antt =====
-- src/billing.rs: `persist_terminal_request_log`, which writes the log row of a request and its rollups in one
-- transaction. Dates and texts of dates are the crate chrono's, and the database answers are arguments.
use text.Mathlib.Text.{◌==◌ as str_eq}
use clewdr_hub.Common.{
  ℕ, ◌+◌, String, Bool, true, false, ◌&&◌, Option, none, some, List, [], ◌∷◌, ◌++◌, if◌then◌else◌,
  is_some, and_then, or_else, ◌==◌, ℤ, pos, pos_part, neg_part, sub_ℕ,
}
use clewdr_hub.Billing.{BillingUsage, RequestType, messages, request_type_str, cost_nanousd, as_i64}
use clewdr_hub.Billing.Model.{normalize_model, compute_model_key}

-- A day, as chrono's `NaiveDate`.
pub record NaiveDate : Type 0 where
  pub year : ℤ
  pub month : ℕ
  pub day : ℕ

-- What chrono and the standard library do: the day of a time in UTC, the days since Monday, the day `n` days after
-- another or before it, a day's midnight as text, a time as text, the day at UTC+8 as text, and `str::trim`.
pub record Calendar : Type 0 where
  pub date_of : ℤ → NaiveDate
  pub num_days_from_monday : ℤ → ℕ
  pub days_after : NaiveDate → ℕ → NaiveDate
  pub days_before : NaiveDate → ℕ → NaiveDate
  pub midnight : NaiveDate → String
  pub to_rfc3339 : ℤ → String
  pub bucket_date : ℤ → String
  pub trim : List ℕ → List ℕ

-- `current_week_bounds`.
unfoldable pub current_week_bounds : Calendar → ℤ → String × String
current_week_bounds cal now =
    let monday = cal.days_before (cal.date_of now) (cal.num_days_from_monday now) in
    (cal.midnight monday, cal.midnight (cal.days_after monday 7))

abbrev next_month : NaiveDate → NaiveDate
next_month d =
    if d.month == 12
    then record { year = sub_ℕ (pos_part d.year + 1) (neg_part d.year); month = 1; day = 1 }
    else record { year = d.year; month = d.month + 1; day = 1 }

-- `current_month_bounds`.
unfoldable pub current_month_bounds : Calendar → ℤ → String × String
current_month_bounds cal now =
    let d = cal.date_of now in (cal.midnight (record d { day = 1 }), cal.midnight (next_month d))

-- `lookup_prices`, by the answer of `lookup_model_pricing`: an error, no row, or the prices.
pub data PriceAnswer : Type 0 where
  failed no_row : PriceAnswer
  prices : ℤ → ℤ → PriceAnswer

abbrev pub fallback_prices : ℤ × ℤ
fallback_prices = (pos 15000, pos 75000)

abbrev answered_prices : PriceAnswer → ℤ × ℤ
answered_prices (prices i o) = (i, o)
answered_prices failed = fallback_prices
answered_prices no_row = fallback_prices

unfoldable pub lookup_prices : Option (List ℕ) → (List ℕ → PriceAnswer) → ℤ × ℤ
lookup_prices none db = fallback_prices
lookup_prices (some key) db = answered_prices (db key)

-- `RequestAuditSnapshot` of src/db/models.rs.
pub record RequestAuditSnapshot : Type 0 where
  pub peer_ip : String
  pub client_ip : String
  pub ip_source : String
  pub forwarded_chain : Option String
  pub user_agent : Option String
  pub anthropic_version : Option String
  pub anthropic_beta : Option String
  pub api_surface : Option String
  pub content_length : Option ℤ

-- `BillingContext`, without the database and the channel; a time is in milliseconds.
pub record BillingContext : Type 0 where
  pub user_id : Option ℕ
  pub api_key_id : Option ℕ
  pub account_id : Option ℕ
  pub model_raw : List ℕ
  pub request_id : String
  pub started_at : ℤ
  pub audit : Option RequestAuditSnapshot

-- `TerminalLogOptions`.
pub record TerminalLogOptions : Type 0 where
  pub request_type : RequestType
  pub stream : Bool
  pub status : String
  pub http_status : Option ℕ
  pub usage : Option BillingUsage
  pub error_code : Option String
  pub error_message : Option String
  pub update_rollups : Bool
  pub response_body : Option String

-- `RequestLogRow` of src/db/billing.rs.
pub record RequestLogRow : Type 0 where
  pub request_id : String
  pub request_type : String
  pub user_id : Option ℕ
  pub api_key_id : Option ℕ
  pub account_id : Option ℕ
  pub model_raw : Option (List ℕ)
  pub model_normalized : Option (List ℕ)
  pub model_key : List ℕ
  pub usage_accounted : Bool
  pub stream : Bool
  pub started_at : String
  pub completed_at : Option String
  pub duration_ms : Option ℤ
  pub ttft_ms : Option ℤ
  pub status : String
  pub http_status : Option ℕ
  pub input_tokens : Option ℤ
  pub output_tokens : Option ℤ
  pub cache_creation_tokens : Option ℤ
  pub cache_read_tokens : Option ℤ
  pub priced_input_nanousd_per_token : Option ℤ
  pub priced_output_nanousd_per_token : Option ℤ
  pub cost_nanousd : ℤ
  pub error_code : Option String
  pub error_message : Option String
  pub response_body : Option String

-- A statement of the transaction; the audit row has the id of the log row before it.
pub data Statement : Type 0 where
  insert_request_log : RequestLogRow → Statement
  insert_request_log_audit : RequestAuditSnapshot → Statement
  upsert_week : ℕ → String × String → BillingUsage → ℤ → Statement
  upsert_month : ℕ → String × String → BillingUsage → ℤ → Statement
  upsert_usage_lifetime_total : ℕ → BillingUsage → ℤ → Statement
  upsert_usage_daily_rollup : ℕ → List ℕ → String → BillingUsage → ℤ → Statement

-- How the database answers: the prices, and whether the transaction begins, each of its statements runs, and it commits.
pub record DbAnswer : Type 0 where
  pub pricing : List ℕ → PriceAnswer
  pub begins : Bool
  pub runs : Statement → Bool
  pub commits : Bool

abbrev pub is_messages : RequestType → Bool
is_messages messages = true
is_messages _ = false

-- `usage_accounted`.
unfoldable pub usage_accounted : TerminalLogOptions → Bool
usage_accounted opts = is_messages opts.request_type && is_some opts.usage && opts.update_rollups

-- The prices and the cost of a request; without usage there are none.
abbrev pub prices_of : BillingContext → TerminalLogOptions → DbAnswer → Option (ℤ × ℤ)
prices_of ctx opts db =
    and_then opts.usage (λ u. some (lookup_prices (normalize_model ctx.model_raw) db.pricing))

abbrev pub usage_cost : Option BillingUsage → ℤ × ℤ → ℤ
usage_cost none p = pos 0
usage_cost (some u) p = cost_nanousd u p.0 p.1

unfoldable pub request_cost : BillingContext → TerminalLogOptions → DbAnswer → ℤ
request_cost ctx opts db =
    usage_cost opts.usage (lookup_prices (normalize_model ctx.model_raw) db.pricing)

abbrev unless_none : List ℕ → Option (List ℕ)
unless_none [] = none
unless_none (c ∷ cs) = some (c ∷ cs)

-- The milliseconds from a time to another.
abbrev span : ℤ → ℤ → ℤ
span from to = sub_ℕ (pos_part to + neg_part from) (neg_part to + pos_part from)

unfoldable pub log_row :
    Calendar → ℤ → BillingContext → TerminalLogOptions → DbAnswer → RequestLogRow
log_row cal now ctx opts db =
    let normalized = normalize_model ctx.model_raw in
    record {
      request_id = ctx.request_id;
      request_type = request_type_str opts.request_type;
      user_id = ctx.user_id;
      api_key_id = ctx.api_key_id;
      account_id = ctx.account_id;
      model_raw = unless_none ctx.model_raw;
      model_normalized = normalized;
      model_key = compute_model_key cal.trim ctx.model_raw normalized;
      usage_accounted = usage_accounted opts;
      stream = opts.stream;
      started_at = cal.to_rfc3339 ctx.started_at;
      completed_at = some (cal.to_rfc3339 now);
      duration_ms = some (span ctx.started_at now);
      ttft_ms = and_then opts.usage (λ u. u.ttft_ms);
      status = opts.status;
      http_status = opts.http_status;
      input_tokens = and_then opts.usage (λ u. some (as_i64 u.input_tokens));
      output_tokens = and_then opts.usage (λ u. some (as_i64 u.output_tokens));
      cache_creation_tokens = and_then opts.usage (λ u. some (as_i64 u.cache_creation_tokens));
      cache_read_tokens = and_then opts.usage (λ u. some (as_i64 u.cache_read_tokens));
      priced_input_nanousd_per_token = and_then (prices_of ctx opts db) (λ p. some p.0);
      priced_output_nanousd_per_token = and_then (prices_of ctx opts db) (λ p. some p.1);
      cost_nanousd = request_cost ctx opts db;
      error_code =
          or_else opts.error_code (if str_eq opts.status "ok" then none else some opts.status);
      error_message = opts.error_message;
      response_body = opts.response_body;
    }

abbrev pub audit_statements : Option RequestAuditSnapshot → List Statement
audit_statements none = []
audit_statements (some audit) = insert_request_log_audit audit ∷ []

-- The four rollups of a request that a user has made.
unfoldable pub rollup_statements :
    Calendar → ℤ → BillingContext → ℤ → Option ℕ → Option BillingUsage → List Statement
rollup_statements cal now ctx cost (some user_id) (some usage) =
    upsert_week user_id (current_week_bounds cal now) usage cost
    ∷ upsert_month user_id (current_month_bounds cal now) usage cost
    ∷ upsert_usage_lifetime_total user_id usage cost
    ∷ upsert_usage_daily_rollup user_id
        (compute_model_key cal.trim ctx.model_raw (normalize_model ctx.model_raw))
        (cal.bucket_date ctx.started_at) usage cost
    ∷ []
rollup_statements cal now ctx cost _ _ = []

-- The statements of the transaction, in order.
unfoldable pub statements :
    Calendar → ℤ → BillingContext → TerminalLogOptions → DbAnswer → List Statement
statements cal now ctx opts db =
    insert_request_log (log_row cal now ctx opts db) ∷ audit_statements ctx.audit
    ++ (if usage_accounted opts
        then rollup_statements cal now ctx (request_cost ctx opts db) ctx.user_id opts.usage
        else [])

-- Each statement runs before the next, and the first that fails ends the transaction.
unfoldable pub runs_all : (Statement → Bool) → List Statement → Bool
runs_all runs [] = true
runs_all runs (st ∷ sts) = let rest = runs_all runs sts in if runs st then rest else false

-- `persist_terminal_request_log`: what is committed, and whether an event is sent.
unfoldable pub persist_terminal_request_log :
    Calendar → ℤ → BillingContext → TerminalLogOptions → DbAnswer → List Statement × Bool
persist_terminal_request_log cal now ctx opts db =
    let sts = statements cal now ctx opts db in
    if db.begins && runs_all db.runs sts && db.commits then (sts, true) else ([], false)

-- `persist_billing_to_db`.
unfoldable pub persist_billing_to_db :
    Calendar → ℤ → BillingContext → BillingUsage → Bool → DbAnswer → List Statement × Bool
persist_billing_to_db cal now ctx usage stream db =
    persist_terminal_request_log cal now ctx
      (record {
        request_type = messages;
        stream = stream;
        status = "ok";
        http_status = some 200;
        usage = some usage;
        error_code = none;
        error_message = none;
        update_rollups = true;
        response_body = none;
      })
      db

-- `persist_probe_log`.
unfoldable pub persist_probe_log :
    Calendar
    → ℤ
    → BillingContext
    → RequestType
    → String
    → Option ℕ
    → String
    → Option String
    → DbAnswer
    → List Statement × Bool
persist_probe_log cal now ctx request_type status http_status body error_message db =
    persist_terminal_request_log cal now ctx
      (record {
        request_type = request_type;
        stream = false;
        status = status;
        http_status = http_status;
        usage = none;
        error_code = and_then error_message (λ m. some status);
        error_message = error_message;
        update_rollups = false;
        response_body = some body;
      })
      db
