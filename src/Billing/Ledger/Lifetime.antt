-- ===== src/Billing/Ledger/Lifetime.antt =====
-- src/billing.rs and src/db/billing.rs: the lifetime totals against the request logs.
use mathlib.Core.List.{append-nil, append_assoc}
use clewdr_hub.Common.{
  ℕ, ◌≡◌, refl, sym, ap, ◌∙◌, Bool, true, false, ◌&&◌, Option, none, some, List, [], ◌∷◌, ◌++◌,
  if◌then◌else◌, arith, inl, inr, if_same, Bool-cases, is_some, and_then, unwrap_or, is_some_and,
  ◌==◌, ℤ, pos,
}
use clewdr_hub.Billing.{BillingUsage, as_i64}
use clewdr_hub.Billing.Log.{
  Calendar, BillingContext, TerminalLogOptions, RequestLogRow, RequestAuditSnapshot, DbAnswer,
  Statement, insert_request_log, insert_request_log_audit, upsert_week, upsert_month,
  upsert_usage_lifetime_total, upsert_usage_daily_rollup, audit_statements, usage_accounted,
  log_row, request_cost, rollup_statements, statements, runs_all, persist_terminal_request_log,
}
use clewdr_hub.Billing.Ledger.{
  Totals, of_request, user_eq, Tables, no_tables, find_row, execute, execute_all, Call, record_call,
  record_calls,
}
use clewdr_hub.Billing.Ledger.Upserts.{user_eq-Decides, add_all, add_all-append, find_row-upsert}

-- The counters that a log row accounts for.
abbrev pub of_row : RequestLogRow → Totals
of_row row = record {
  request_count = pos 1;
  input_tokens = unwrap_or row.input_tokens (pos 0);
  output_tokens = unwrap_or row.output_tokens (pos 0);
  cache_creation_tokens = unwrap_or row.cache_creation_tokens (pos 0);
  cache_read_tokens = unwrap_or row.cache_read_tokens (pos 0);
  cost_nanousd = row.cost_nanousd;
}

-- Of the log rows, those that are accounted to a user.
unfoldable pub accounted_rows : ℕ → List RequestLogRow → List Totals
accounted_rows u [] = []
accounted_rows u (row ∷ rows) =
    let rest = accounted_rows u rows in
    if row.usage_accounted && is_some_and row.user_id (λ v. v == u) then of_row row ∷ rest else rest

accounted_rows-append :
    (u : ℕ) (rows more : List RequestLogRow)
    → accounted_rows u (rows ++ more) ≡ accounted_rows u rows ++ accounted_rows u more
unfolding accounted_rows
accounted_rows-append u [] more = refl
accounted_rows-append u (row ∷ rows) more =
    elim (Bool-cases (row.usage_accounted && is_some_and row.user_id (λ v. v == u))) [
      | inl e ↦ rw (e, ◌++◌, accounted_rows-append u rows more)
      | inr e ↦ rw (e, ◌++◌, accounted_rows-append u rows more)
    ]

pub logged : List Statement → List RequestLogRow
logged [] = []
logged (insert_request_log row ∷ sts) = row ∷ logged sts
logged (_ ∷ sts) = logged sts

lifetime_parts : ℕ → List Statement → List Totals
lifetime_parts u [] = []
lifetime_parts u (upsert_usage_lifetime_total v usage cost ∷ sts) =
    let rest = lifetime_parts u sts in if user_eq v u then of_request usage cost ∷ rest else rest
lifetime_parts u (_ ∷ sts) = lifetime_parts u sts

module _ (plus : ℤ → ℤ → ℤ) where
  execute_all-logged :
      (sts : List Statement) (t : Tables)
      → (execute_all plus sts t).request_logs ≡ t.request_logs ++ logged sts
  unfolding execute_all execute logged
  execute_all-logged [] t = sym (append-nil t.request_logs)
  execute_all-logged (insert_request_log row ∷ sts) t =
      execute_all-logged sts _ ∙ append_assoc t.request_logs (row ∷ []) (logged sts)
  execute_all-logged (insert_request_log_audit a ∷ sts) t = execute_all-logged sts _
  execute_all-logged (upsert_week v b usage cost ∷ sts) t = execute_all-logged sts _
  execute_all-logged (upsert_month v b usage cost ∷ sts) t = execute_all-logged sts _
  execute_all-logged (upsert_usage_lifetime_total v usage cost ∷ sts) t = execute_all-logged sts _
  execute_all-logged (upsert_usage_daily_rollup v k d usage cost ∷ sts) t = execute_all-logged sts _

  execute_all-lifetime :
      (u : ℕ) (sts : List Statement) (t : Tables)
      → find_row user_eq u (execute_all plus sts t).usage_lifetime_totals
        ≡ add_all plus (find_row user_eq u t.usage_lifetime_totals) (lifetime_parts u sts)
  unfolding execute_all execute lifetime_parts add_all
  execute_all-lifetime u [] t = refl
  execute_all-lifetime u (insert_request_log row ∷ sts) t = execute_all-lifetime u sts _
  execute_all-lifetime u (insert_request_log_audit a ∷ sts) t = execute_all-lifetime u sts _
  execute_all-lifetime u (upsert_week v b usage cost ∷ sts) t = execute_all-lifetime u sts _
  execute_all-lifetime u (upsert_month v b usage cost ∷ sts) t = execute_all-lifetime u sts _
  execute_all-lifetime u (upsert_usage_lifetime_total v usage cost ∷ sts) t =
      execute_all-lifetime u sts _
      ∙ ap (λ o. add_all plus o (lifetime_parts u sts))
          (find_row-upsert plus user_eq u v (of_request usage cost) t.usage_lifetime_totals
            user_eq-Decides)
      ∙ elim (Bool-cases (user_eq v u)) [ inl e ↦ rw (e, add_all) | inr e ↦ rw (e, add_all) ]
  execute_all-lifetime u (upsert_usage_daily_rollup v k d usage cost ∷ sts) t =
      execute_all-lifetime u sts _

-- What follows the log row in a transaction.
abbrev pub tail :
    Calendar
    → ℤ
    → BillingContext
    → ℤ
    → Option RequestAuditSnapshot
    → Bool
    → Option ℕ
    → Option BillingUsage
    → List Statement
tail cal now ctx cost audit accounted user usage =
    audit_statements audit
    ++ (if accounted then rollup_statements cal now ctx cost user usage else [])

abbrev pub request_parts : ℤ → Option BillingUsage → List Totals
request_parts cost none = []
request_parts cost (some usage) = of_request usage cost ∷ []

module _ (cal : Calendar) (now : ℤ) (ctx : BillingContext) (cost : ℤ) where
  logged-tail :
      (audit : Option RequestAuditSnapshot) (accounted : Bool) (user : Option ℕ)
      (usage : Option BillingUsage)
      → logged (tail cal now ctx cost audit accounted user usage) ≡ []
  unfolding logged rollup_statements
  logged-tail none true (some v) (some w) = refl
  logged-tail none true none (some w) = refl
  logged-tail none true (some v) none = refl
  logged-tail none true none none = refl
  logged-tail none false user usage = refl
  logged-tail (some a) true (some v) (some w) = refl
  logged-tail (some a) true none (some w) = refl
  logged-tail (some a) true (some v) none = refl
  logged-tail (some a) true none none = refl
  logged-tail (some a) false user usage = refl

  lifetime_parts-tail :
      (u : ℕ) (audit : Option RequestAuditSnapshot) (accounted : Bool) (user : Option ℕ)
      (usage : Option BillingUsage)
      → lifetime_parts u (tail cal now ctx cost audit accounted user usage)
        ≡ (if accounted && is_some_and user (λ v. v == u) then request_parts cost usage else [])
  unfolding lifetime_parts rollup_statements user_eq
  lifetime_parts-tail u none true (some v) (some w) = refl
  lifetime_parts-tail u none true none (some w) = refl
  lifetime_parts-tail u none true (some v) none = sym (if_same (v == u) [])
  lifetime_parts-tail u none true none none = refl
  lifetime_parts-tail u none false user usage = refl
  lifetime_parts-tail u (some a) true (some v) (some w) = refl
  lifetime_parts-tail u (some a) true none (some w) = refl
  lifetime_parts-tail u (some a) true (some v) none = sym (if_same (v == u) [])
  lifetime_parts-tail u (some a) true none none = refl
  lifetime_parts-tail u (some a) false user usage = refl

-- The counters that a log row has from a usage.
abbrev counters : Option BillingUsage → ℤ → Totals
counters usage cost = record {
  request_count = pos 1;
  input_tokens = unwrap_or (and_then usage (λ w. some (as_i64 w.input_tokens))) (pos 0);
  output_tokens = unwrap_or (and_then usage (λ w. some (as_i64 w.output_tokens))) (pos 0);
  cache_creation_tokens =
      unwrap_or (and_then usage (λ w. some (as_i64 w.cache_creation_tokens))) (pos 0);
  cache_read_tokens = unwrap_or (and_then usage (λ w. some (as_i64 w.cache_read_tokens))) (pos 0);
  cost_nanousd = cost;
}

request_parts-counters :
    (usage : Option BillingUsage) (cost : ℤ)
    → is_some usage ≡ true
    → request_parts cost usage ≡ counters usage cost ∷ []
unfolding of_request
request_parts-counters none cost h = cc
request_parts-counters (some w) cost h = refl

-- What a log row accounts for is what its request adds.
row_parts :
    (cal : Calendar) (now : ℤ) (ctx : BillingContext) (opts : TerminalLogOptions) (db : DbAnswer)
    → usage_accounted opts ≡ true
    → request_parts (request_cost ctx opts db) opts.usage
      ≡ of_row (log_row cal now ctx opts db) ∷ []
unfolding usage_accounted log_row
row_parts cal now ctx opts db e =
    request_parts-counters opts.usage (request_cost ctx opts db) (ground arith)

-- What a transaction adds for a user is what its log row accounts for.
statements-lifetime_parts :
    (cal : Calendar) (u : ℕ) (c : Call)
    → lifetime_parts u (statements cal c.now c.ctx c.opts c.db)
      ≡ accounted_rows u (logged (statements cal c.now c.ctx c.opts c.db))
unfolding statements lifetime_parts logged accounted_rows log_row
statements-lifetime_parts cal u c =
    let cost = request_cost c.ctx c.opts c.db in
    lifetime_parts-tail cal c.now c.ctx cost u c.ctx.audit (usage_accounted c.opts) c.ctx.user_id
      c.opts.usage
    ∙ elim (Bool-cases (usage_accounted c.opts)) [
      | inl e ↦ rw (
        row_parts cal c.now c.ctx c.opts c.db e,
        logged-tail cal c.now c.ctx cost c.ctx.audit (usage_accounted c.opts) c.ctx.user_id
            c.opts.usage,
      )
      | inr e ↦
          rw (e, logged-tail cal c.now c.ctx cost c.ctx.audit false c.ctx.user_id c.opts.usage)
    ]

module _ (plus : ℤ → ℤ → ℤ) (cal : Calendar) where
  -- The tables agree: a user's lifetime totals are the sum over the user's accounted log rows.
  abbrev pub Agree : ℕ → Tables → Type 0
  Agree u t =
      find_row user_eq u t.usage_lifetime_totals
      ≡ add_all plus none (accounted_rows u t.request_logs)

  execute_all-Agree :
      (u : ℕ) (sts : List Statement) (t : Tables)
      → lifetime_parts u sts ≡ accounted_rows u (logged sts)
      → Agree u t
      → Agree u (execute_all plus sts t)
  execute_all-Agree u sts t same agree =
      execute_all-lifetime plus u sts t
      ∙ ap (λ o. add_all plus o (lifetime_parts u sts)) agree
      ∙ ap (add_all plus (add_all plus none (accounted_rows u t.request_logs))) same
      ∙ sym (
          add_all-append plus none (accounted_rows u t.request_logs)
            (accounted_rows u (logged sts)))
      ∙ ap (add_all plus none) (sym (accounted_rows-append u t.request_logs (logged sts)))
      ∙ ap (λ rows. add_all plus none (accounted_rows u rows)) (sym (execute_all-logged plus sts t))

  record_call-Agree :
      (u : ℕ) (c : Call) (t : Tables) → Agree u t → Agree u (record_call plus cal c t)
  unfolding record_call persist_terminal_request_log execute_all
  record_call-Agree u c t agree =
      elim (Bool-cases (
        c.db.begins
        && runs_all c.db.runs (statements cal c.now c.ctx c.opts c.db)
        && c.db.commits)) [
          | inl e ↦ rw e (
              execute_all-Agree u (statements cal c.now c.ctx c.opts c.db) t
                (statements-lifetime_parts cal u c) agree)
          | inr e ↦ rw (e, execute_all) agree
        ]

  record_calls-Agree :
      (u : ℕ) (cs : List Call) (t : Tables) → Agree u t → Agree u (record_calls plus cal cs t)
  unfolding record_calls
  record_calls-Agree u [] t agree = agree
  record_calls-Agree u (c ∷ cs) t agree =
      record_calls-Agree u cs (record_call plus cal c t) (record_call-Agree u c t agree)

  -- After any requests on empty tables, ended at any times and with whatever answers of the database, a user has
  -- lifetime totals exactly if some log row of the user says `usage_accounted`, and they are the sums over those rows,
  -- in order, of one request, the row's tokens and the row's cost.
  pub record_calls-lifetime :
      (u : ℕ) (cs : List Call)
      → let t = record_calls plus cal cs no_tables in
        find_row user_eq u t.usage_lifetime_totals
        ≡ add_all plus none (accounted_rows u t.request_logs)
  unfolding find_row add_all accounted_rows
  record_calls-lifetime u cs = record_calls-Agree u cs no_tables refl
