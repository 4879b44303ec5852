-- ===== src/Billing/Ledger/Periods.antt =====
-- src/billing.rs and src/db/billing.rs: the rollups of a week and of a month against the requests.
use text.Mathlib.Text.{◌==◌ as str_eq}
use clewdr_hub.Common.{
  ℕ, ◌≡◌, refl, sym, ap, ◌∙◌, String, Bool, true, false, ◌&&◌, Option, none, some, List, [], ◌∷◌,
  ◌++◌, if◌then◌else◌, arith, inl, inr, Bool-cases, if_same, is_some_and, ◌==◌, ℤ, pos,
}
use clewdr_hub.Billing.{BillingUsage}
use clewdr_hub.Billing.Log.{
  Calendar, BillingContext, RequestAuditSnapshot, Statement, insert_request_log,
  insert_request_log_audit, upsert_week, upsert_month, upsert_usage_lifetime_total,
  upsert_usage_daily_rollup, usage_accounted, request_cost, rollup_statements, statements, runs_all,
  persist_terminal_request_log, current_week_bounds, current_month_bounds,
}
use clewdr_hub.Billing.Ledger.{
  Totals, of_request, PeriodKey, period_key_eq, Tables, no_tables, find_row, execute, execute_all,
  Call, record_call, ResetPeriod, reset_week, reset_month, reset_all, UsageEvent, ended,
  usage_reset, delete_usage_rollup, reset_usage, record_event, record_events,
  get_current_period_cost,
}
use clewdr_hub.Billing.Ledger.Upserts.{
  period_key_eq-Decides, add_to, add_all, add_all-append, find_row-upsert, find_row-delete_row,
}
use clewdr_hub.Billing.Ledger.Lifetime.{tail, request_parts}

pub data Period : Type 0 where
  week month : Period

abbrev pub period_name : Period → String
period_name week = "week"
period_name month = "month"

abbrev pub period_bounds : Period → Calendar → ℤ → String × String
period_bounds week cal now = current_week_bounds cal now
period_bounds month cal now = current_month_bounds cal now

abbrev pub key_of : ℕ → Period → String → PeriodKey
key_of u p start = record { user_id = u; period_type = period_name p; period_start = start }

period_parts : PeriodKey → List Statement → List Totals
period_parts k [] = []
period_parts k (upsert_week v bounds usage cost ∷ sts) =
    let rest = period_parts k sts in
    if period_key_eq (record { user_id = v; period_type = "week"; period_start = bounds.0 }) k
    then of_request usage cost ∷ rest
    else rest
period_parts k (upsert_month v bounds usage cost ∷ sts) =
    let rest = period_parts k sts in
    if period_key_eq (record { user_id = v; period_type = "month"; period_start = bounds.0 }) k
    then of_request usage cost ∷ rest
    else rest
period_parts k (_ ∷ sts) = period_parts k sts

module _ (plus : ℤ → ℤ → ℤ) where
  add_all-upsert :
      (k j : PeriodKey) (t : Totals) (ts : List Totals) (rows : List (PeriodKey × Totals))
      → add_all plus
          (if period_key_eq j k
            then add_to plus (find_row period_key_eq k rows) t
            else find_row period_key_eq k rows)
          ts
        ≡ add_all plus (find_row period_key_eq k rows) (if period_key_eq j k then t ∷ ts else ts)
  unfolding add_all
  add_all-upsert k j t ts rows = elim (Bool-cases (period_key_eq j k)) [
    | inl e ↦ rw (e, add_all)
    | inr e ↦ rw (e, add_all)
  ]

  execute_all-periods :
      (k : PeriodKey) (sts : List Statement) (t : Tables)
      → find_row period_key_eq k (execute_all plus sts t).usage_rollups
        ≡ add_all plus (find_row period_key_eq k t.usage_rollups) (period_parts k sts)
  unfolding execute_all execute period_parts add_all
  execute_all-periods k [] t = refl
  execute_all-periods k (insert_request_log row ∷ sts) t = execute_all-periods k sts _
  execute_all-periods k (insert_request_log_audit a ∷ sts) t = execute_all-periods k sts _
  execute_all-periods k (upsert_week v b usage cost ∷ sts) t =
      execute_all-periods k sts _
      ∙ ap (λ o. add_all plus o (period_parts k sts))
          (find_row-upsert plus period_key_eq k _ (of_request usage cost) t.usage_rollups
            period_key_eq-Decides)
      ∙ add_all-upsert k _ (of_request usage cost) (period_parts k sts) t.usage_rollups
  execute_all-periods k (upsert_month v b usage cost ∷ sts) t =
      execute_all-periods k sts _
      ∙ ap (λ o. add_all plus o (period_parts k sts))
          (find_row-upsert plus period_key_eq k _ (of_request usage cost) t.usage_rollups
            period_key_eq-Decides)
      ∙ add_all-upsert k _ (of_request usage cost) (period_parts k sts) t.usage_rollups
  execute_all-periods k (upsert_usage_lifetime_total v usage cost ∷ sts) t =
      execute_all-periods k sts _
  execute_all-periods k (upsert_usage_daily_rollup v m d usage cost ∷ sts) t =
      execute_all-periods k sts _

same_period :
    (p : Period) (v u : ℕ) (x y : String)
    → period_key_eq (key_of v p x) (key_of u p y) ≡ (v == u && str_eq x y)
unfolding period_key_eq
same_period week v u x y = ground arith
same_period month v u x y = ground arith

not_month : (v u : ℕ) (x y : String) → period_key_eq (key_of v month x) (key_of u week y) ≡ false
unfolding period_key_eq
not_month v u x y = ground arith

not_week : (v u : ℕ) (x y : String) → period_key_eq (key_of v week x) (key_of u month y) ≡ false
unfolding period_key_eq
not_week v u x y = ground arith

module _ (cal : Calendar) (now : ℤ) (ctx : BillingContext) (cost : ℤ) (u : ℕ) (start : String) where
  period_parts-rollups :
      (p : Period) (accounted : Bool) (user : Option ℕ) (usage : Option BillingUsage)
      → period_parts (key_of u p start) (tail cal now ctx cost none accounted user usage) ≡ (
          if accounted && is_some_and user (λ v. v == u && str_eq (period_bounds p cal now).0 start)
          then request_parts cost usage
          else [])
  unfolding period_parts rollup_statements
  period_parts-rollups week true (some v) (some w) = rw (
    not_month v u (current_month_bounds cal now).0 start,
    same_period week v u (current_week_bounds cal now).0 start,
  )
  period_parts-rollups month true (some v) (some w) = rw (
    not_week v u (current_week_bounds cal now).0 start,
    same_period month v u (current_month_bounds cal now).0 start,
  )
  period_parts-rollups p true none (some w) = refl
  period_parts-rollups p true (some v) none =
      sym (if_same (v == u && str_eq (period_bounds p cal now).0 start) [])
  period_parts-rollups p true none none = refl
  period_parts-rollups p false user usage = refl

  period_parts-tail :
      (p : Period) (audit : Option RequestAuditSnapshot) (accounted : Bool) (user : Option ℕ)
      (usage : Option BillingUsage)
      → period_parts (key_of u p start) (tail cal now ctx cost audit accounted user usage) ≡ (
          if accounted && is_some_and user (λ v. v == u && str_eq (period_bounds p cal now).0 start)
          then request_parts cost usage
          else [])
  unfolding period_parts
  period_parts-tail p none accounted user usage = period_parts-rollups p accounted user usage
  period_parts-tail p (some a) accounted user usage = period_parts-rollups p accounted user usage

-- What a request is charged to a user in a period: what it inserts if its transaction is committed, it is accounted, and
-- it ends in the period.
abbrev pub charged : Calendar → ℕ → Period → String → Call → List Totals
charged cal u p start c =
    if (persist_terminal_request_log cal c.now c.ctx c.opts c.db).1
      && (usage_accounted c.opts
          && is_some_and c.ctx.user_id (λ v. v == u && str_eq (period_bounds p cal c.now).0 start))
    then request_parts (request_cost c.ctx c.opts c.db) c.opts.usage
    else []

-- A usage reset that concerns a user's period: it is the user's, of this kind, and made in the period.
abbrev pub covers : ResetPeriod → Period → Bool
covers reset_week week = true
covers reset_week month = false
covers reset_month week = false
covers reset_month month = true
covers reset_all p = true

abbrev pub is_reset : Calendar → ℕ → Period → String → ℤ → ℕ → ResetPeriod → Bool
is_reset cal u p start now id r =
    covers r p && (id == u && str_eq (period_bounds p cal now).0 start)

-- What a user is charged in a period since the last reset of it, after what was charged before.
unfoldable pub charged_since :
    Calendar → ℕ → Period → String → List Totals → List UsageEvent → List Totals
charged_since cal u p start before [] = before
charged_since cal u p start before (ended c ∷ es) =
    charged_since cal u p start (before ++ charged cal u p start c) es
charged_since cal u p start before (usage_reset now id r ∷ es) =
    charged_since cal u p start (if is_reset cal u p start now id r then [] else before) es

-- The cost of a sum of requests; no request costs nothing.
abbrev pub cost_of_sum : Option Totals → ℤ
cost_of_sum none = pos 0
cost_of_sum (some t) = t.cost_nanousd

module _ (u : ℕ) (start : String) where
  total : Period → Tables → Option Totals
  total p t = find_row period_key_eq (key_of u p start) t.usage_rollups

  delete_usage_rollup-total :
      (id : ℕ) (q p : Period) (begin : String) (t : Tables)
      → total p (delete_usage_rollup id (period_name q) begin t)
        ≡ (if period_key_eq (key_of id q begin) (key_of u p start) then none else total p t)
  unfolding delete_usage_rollup total
  delete_usage_rollup-total id q p begin t =
      find_row-delete_row period_key_eq (key_of u p start) (key_of id q begin) t.usage_rollups
        period_key_eq-Decides

  reset_usage-total :
      (cal : Calendar) (now : ℤ) (id : ℕ) (r : ResetPeriod) (p : Period) (t : Tables)
      → total p (reset_usage cal now id r t)
        ≡ (if is_reset cal u p start now id r then none else total p t)
  unfolding reset_usage
  reset_usage-total cal now id reset_week week t =
      delete_usage_rollup-total id week week _ t ∙ rw (same_period week id u _ start)
  reset_usage-total cal now id reset_week month t =
      delete_usage_rollup-total id week month _ t ∙ rw (not_week id u _ start)
  reset_usage-total cal now id reset_month week t =
      delete_usage_rollup-total id month week _ t ∙ rw (not_month id u _ start)
  reset_usage-total cal now id reset_month month t =
      delete_usage_rollup-total id month month _ t ∙ rw (same_period month id u _ start)
  reset_usage-total cal now id reset_all week t =
      delete_usage_rollup-total id month week _ _
      ∙ rw (not_month id u (current_month_bounds cal now).0 start)
          (delete_usage_rollup-total id week week _ t ∙ rw (same_period week id u _ start))
  reset_usage-total cal now id reset_all month t =
      delete_usage_rollup-total id month month _ _
      ∙ rw (
        same_period month id u (current_month_bounds cal now).0 start,
        delete_usage_rollup-total id week month (current_week_bounds cal now).0 t,
        not_week id u (current_week_bounds cal now).0 start,
      )

after_reset :
    (plus : ℤ → ℤ → ℤ) (b : Bool) (o : Option Totals) (before : List Totals)
    → o ≡ add_all plus none before
    → (if b then none else o) ≡ add_all plus none (if b then [] else before)
unfolding add_all
after_reset plus true o before e = refl
after_reset plus false o before e = e

module _ (plus : ℤ → ℤ → ℤ) (cal : Calendar) (u : ℕ) (p : Period) (start : String) where
  spent : Tables → Option Totals
  spent t = find_row period_key_eq (key_of u p start) t.usage_rollups

  record_call-spent :
      (c : Call) (t : Tables)
      → spent (record_call plus cal c t) ≡ add_all plus (spent t) (charged cal u p start c)
  unfolding record_call persist_terminal_request_log execute_all add_all statements spent find_row
      period_parts
  record_call-spent c t =
      elim (Bool-cases (
        c.db.begins
        && runs_all c.db.runs (statements cal c.now c.ctx c.opts c.db)
        && c.db.commits)) [
          | inl e ↦ rw e (
              execute_all-periods plus (key_of u p start) (statements cal c.now c.ctx c.opts c.db) t
              ∙ ap (add_all plus (spent t)) (
                  period_parts-tail cal c.now c.ctx (request_cost c.ctx c.opts c.db) u start p
                    c.ctx.audit (usage_accounted c.opts) c.ctx.user_id c.opts.usage))
          | inr e ↦ rw (e, execute_all, add_all) refl
        ]

  record_events-spent :
      (es : List UsageEvent) (t : Tables) (before : List Totals)
      → spent t ≡ add_all plus none before
      → spent (record_events plus cal es t)
        ≡ add_all plus none (charged_since cal u p start before es)
  unfolding record_events record_event charged_since spent total
  record_events-spent [] t before e = e
  record_events-spent (ended c ∷ es) t before e =
      record_events-spent es (record_call plus cal c t) (before ++ charged cal u p start c) (
        record_call-spent c t
        ∙ ap (λ o. add_all plus o (charged cal u p start c)) e
        ∙ sym (add_all-append plus none before (charged cal u p start c)))
  record_events-spent (usage_reset now id r ∷ es) t before e =
      record_events-spent es (reset_usage cal now id r t)
        (if is_reset cal u p start now id r then [] else before)
        (reset_usage-total u start cal now id r p t
          ∙ after_reset plus (is_reset cal u p start now id r) (spent t) before e)

  -- After any requests and usage resets on empty tables, the cost that is read back for a user and a week or a month is
  -- the sum, in order, of the costs of the user's accounted requests that were committed and ended in that period, since
  -- the last reset of it.
  pub get_current_period_cost-charged_since :
      (es : List UsageEvent)
      → get_current_period_cost (record_events plus cal es no_tables) u (period_name p) start
        ≡ cost_of_sum (add_all plus none (charged_since cal u p start [] es))
  unfolding get_current_period_cost spent find_row add_all
  get_current_period_cost-charged_since es =
      read_back (spent (record_events plus cal es no_tables))
      ∙ ap cost_of_sum (record_events-spent es no_tables [] refl)
    where
      read_back :
          (o : Option Totals)
          → elim o as (λ x. ℤ) [ none ↦ pos 0 | some row ↦ row.cost_nanousd ] ≡ cost_of_sum o
      read_back none = refl
      read_back (some t) = refl
