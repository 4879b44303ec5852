-- ===== src/Billing/Quota/Enforced.antt =====
-- src/billing.rs: the quota against the requests that were billed.
use clewdr_hub.Common.{
  ℕ, ◌≡◌, ◌≢◌, ◌↔◌, ◌⊎◌, refl, sym, ap, ◌∙◌, String, true, false, Option, none, some, List, [],
  arith, inl, inr, Bool-cases, if◌then◌else◌, ltbℤ, lebℤ, ◌≤ℤ◌, lebℤ→≤ℤ, not_both, ℤ, pos,
}
use clewdr_hub.Billing.Log.{Calendar, current_week_bounds, current_month_bounds}
use clewdr_hub.Billing.Ledger.{no_tables, UsageEvent, record_events, get_current_period_cost}
use clewdr_hub.Billing.Ledger.Upserts.{add_all}
use clewdr_hub.Billing.Ledger.Periods.{
  Period, week, month, period_bounds, charged_since, cost_of_sum,
  get_current_period_cost-charged_since,
}
use clewdr_hub.Billing.Quota.{
  QuotaResult, allowed, quota_exceeded, db_failed, against_budget, check_budget, check_quota,
}

not_below : (a b : ℤ) → lebℤ a b ≡ false → a ≤ℤ b → ⊥
not_below a b h k = ground arith

-- A positive budget that a cost has reached.
abbrev pub IsSpent : Option ℤ → ℤ → Type 0
IsSpent none cost = ⊥
IsSpent (some b) cost = (ltbℤ (pos 0) b ≡ true) × (b ≤ℤ cost)

module _ (b cost : ℤ) (next : QuotaResult) where
  check_budget-positive :
      ltbℤ (pos 0) b ≡ true
      → check_budget (some b) (some cost) next ≡ (if lebℤ b cost then quota_exceeded else next)
  unfolding check_budget against_budget
  check_budget-positive e = rw (check_budget, e, against_budget) refl

  check_budget-idle :
      (answer : Option ℤ) → ltbℤ (pos 0) b ≡ false → check_budget (some b) answer next ≡ next
  unfolding check_budget
  check_budget-idle answer e = rw (check_budget, e) refl

check_budget-failed :
    (b : ℤ) (next : QuotaResult)
    → ltbℤ (pos 0) b ≡ true
    → check_budget (some b) none next ≡ db_failed
unfolding check_budget against_budget
check_budget-failed b next e = rw (check_budget, e, against_budget) refl

check_budget-quota_exceeded :
    (budget : Option ℤ) (cost : ℤ) (next : QuotaResult)
    → (check_budget budget (some cost) next ≡ quota_exceeded)
      ↔ (IsSpent budget cost ⊎ (next ≡ quota_exceeded))
unfolding check_budget
check_budget-quota_exceeded none cost next =
    (λ e. inr e, λ o. elim o [ inl h ↦ absurd h | inr h ↦ h ])
check_budget-quota_exceeded (some b) cost next = elim (Bool-cases (ltbℤ (pos 0) b)) [
  | inl e ↦ elim (Bool-cases (lebℤ b cost)) [
    | inl f ↦ (
      λ _. inl (e, lebℤ→≤ℤ b cost f),
      λ _. check_budget-positive b cost next e ∙ ap (λ c. if c then quota_exceeded else next) f,
    )
    | inr f ↦
        let same =
          check_budget-positive b cost next e ∙ ap (λ c. if c then quota_exceeded else next) f in
        (
          λ h. inr (sym same ∙ h),
          λ o. elim o [ inl (_, k) ↦ absurd (not_below b cost f k) | inr h ↦ same ∙ h ],
        )
  ]
  | inr e ↦
      let same = check_budget-idle b cost next (some cost) e in
      (
        λ h. inr (sym same ∙ h),
        λ o. elim o [ inl (f, _) ↦ absurd (not_both (ltbℤ (pos 0) b) f e) | inr h ↦ same ∙ h ],
      )
]

check_budget-answered :
    (budget : Option ℤ) (cost : ℤ) (next : QuotaResult)
    → next ≢ db_failed
    → check_budget budget (some cost) next ≢ db_failed
unfolding check_budget
check_budget-answered none cost next h = h
check_budget-answered (some b) cost next h = elim (Bool-cases (ltbℤ (pos 0) b)) [
  | inl e ↦ elim (Bool-cases (lebℤ b cost)) [
    | inl f ↦ λ k.
        cc (check_budget-positive b cost next e ∙ ap (λ c. if c then quota_exceeded else next) f)
    | inr f ↦ λ k. h (
        sym (check_budget-positive b cost next e ∙ ap (λ c. if c then quota_exceeded else next) f)
        ∙ k)
  ]
  | inr e ↦ λ k. h (sym (check_budget-idle b cost next (some cost) e) ∙ k)
]

two_budgets :
    (weekly monthly : Option ℤ) (w m : ℤ)
    → let result = check_budget weekly (some w) (check_budget monthly (some m) allowed) in
      ((result ≡ quota_exceeded) ↔ (IsSpent weekly w ⊎ IsSpent monthly m)) × (result ≢ db_failed)
two_budgets weekly monthly w m =
    let first = check_budget-quota_exceeded weekly w (check_budget monthly (some m) allowed) in
    let second = check_budget-quota_exceeded monthly m allowed in
    (
      (
        λ h. elim (first.0 h) [
          | inl s ↦ inl s
          | inr k ↦ elim (second.0 k) [ inl s ↦ inr s | inr e ↦ cc ]
        ],
        λ o. first.1 (elim o [ inl s ↦ inl s | inr s ↦ inr (second.1 (inl s)) ]),
      ),
      check_budget-answered weekly w _ (check_budget-answered monthly m allowed (λ e. cc)),
    )

module _ (plus : ℤ → ℤ → ℤ) (cal : Calendar) (now : ℤ) (u : ℕ) where
  -- What the user's committed requests of the period that holds `now` have cost since its last reset.
  abbrev pub cost_now : List UsageEvent → Period → ℤ
  cost_now es p =
      cost_of_sum (add_all plus none (charged_since cal u p (period_bounds p cal now).0 [] es))

  -- The answers of a database that has recorded some requests and usage resets.
  abbrev pub answers : List UsageEvent → String → String → Option ℤ
  answers es period_type start =
      some (get_current_period_cost (record_events plus cal es no_tables) u period_type start)

  -- After any requests and usage resets on empty tables, if the database answers, `check_quota` refuses a user exactly if
  -- a budget is set, is positive and is at most what the user's committed and accounted requests of the current week or
  -- month have cost since the last reset of that period; otherwise it lets the user through.
  pub check_quota-cost_now :
      (es : List UsageEvent) (weekly_budget monthly_budget : Option ℤ)
      → ((check_quota cal now (answers es) weekly_budget monthly_budget ≡ quota_exceeded)
          ↔ (IsSpent weekly_budget (cost_now es week) ⊎ IsSpent monthly_budget (cost_now es month)))
        × (check_quota cal now (answers es) weekly_budget monthly_budget ≢ db_failed)
  unfolding check_quota
  check_quota-cost_now es weekly_budget monthly_budget =
      rw
        (
          get_current_period_cost-charged_since plus cal u week (current_week_bounds cal now).0 es,
          get_current_period_cost-charged_since plus cal u month (current_month_bounds cal now).0
              es,
        )
        (two_budgets weekly_budget monthly_budget (cost_now es week) (cost_now es month))

-- A missing or non-positive budget, or one that a successful answer lies below.
abbrev pub IsWithin : Option ℤ → Option ℤ → Type 0
IsWithin none answer = Unit {0}
IsWithin (some b) answer =
    (ltbℤ (pos 0) b ≡ false) ⊎ ((cost : ℤ) × (answer ≡ some cost) × (lebℤ b cost ≡ false))

check_budget-allowed :
    (budget answer : Option ℤ) (next : QuotaResult)
    → check_budget budget answer next ≡ allowed
    → IsWithin budget answer × (next ≡ allowed)
unfolding check_budget
check_budget-allowed none answer next h = (tt, h)
check_budget-allowed (some b) none next h = elim (Bool-cases (ltbℤ (pos 0) b)) [
  | inl e ↦ cc (sym (check_budget-failed b next e) ∙ h)
  | inr e ↦ (inl e, sym (check_budget-idle b (pos 0) next none e) ∙ h)
]
check_budget-allowed (some b) (some cost) next h = elim (Bool-cases (ltbℤ (pos 0) b)) [
  | inl e ↦ elim (Bool-cases (lebℤ b cost)) [
    | inl f ↦ cc (
        sym (check_budget-positive b cost next e ∙ ap (λ c. if c then quota_exceeded else next) f)
        ∙ h)
    | inr f ↦ (
      inr (cost, refl, f),
      sym (check_budget-positive b cost next e ∙ ap (λ c. if c then quota_exceeded else next) f)
          ∙ h,
    )
  ]
  | inr e ↦ (inl e, sym (check_budget-idle b cost next (some cost) e) ∙ h)
]

-- Whatever the database answers, errors included, a user whom `check_quota` lets through has for each positive budget
-- a successful answer below it.
pub check_quota-allowed :
    (cal : Calendar) (now : ℤ) (cost : String → String → Option ℤ)
    (weekly_budget monthly_budget : Option ℤ)
    → check_quota cal now cost weekly_budget monthly_budget ≡ allowed
    → IsWithin weekly_budget (cost "week" (current_week_bounds cal now).0)
      × IsWithin monthly_budget (cost "month" (current_month_bounds cal now).0)
unfolding check_quota
check_quota-allowed cal now cost weekly_budget monthly_budget h =
    let first = check_budget-allowed weekly_budget _ _ h in
    (first.0, (check_budget-allowed monthly_budget _ _ first.1).0)
