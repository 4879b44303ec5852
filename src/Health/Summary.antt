-- ===== src/Health/Summary.antt =====
-- src/services/account_health.rs: the counts of the summary, `summarize` and `compose_health_snapshot`.
pub mod Partition
use text.Mathlib.Text.{◌==◌ as str_eq}
use clewdr_hub.Common.{
  ℕ, suc, ◌+◌, String, Bool, true, false, ◌&&◌, Option, none, some, List, [], ◌∷◌, if◌then◌else◌,
  length, leb, ltb, get, insert, ℤ,
}
use clewdr_hub.Config.Reason.{Reason, free, disabled, banned, null, restricted, too_many_request}
use clewdr_hub.Pool.State.{values}
use clewdr_hub.Pool.Actor.{PoolSnapshotView}
use clewdr_hub.Config.Row.{AccountWithRuntime}
use clewdr_hub.Health.{
  InvalidKind, auth_error, disabled_account, AccountHealthState, active, unconfigured, cooling_down,
  invalid, AccountHealth, compose_health, account_view,
}

-- `PoolCounts`.
pub record PoolCounts : Type 0 where
  pub valid : ℕ
  pub exhausted : ℕ
  pub invalid_count : ℕ

-- `HealthDetail`.
pub record HealthDetail : Type 0 where
  pub dispatchable_now : ℕ
  pub saturated : ℕ
  pub cooling_down_count : ℕ
  pub probing : ℕ
  pub invalid_auth : ℕ
  pub invalid_disabled : ℕ
  pub unconfigured_count : ℕ

-- `InvalidBreakdown`.
pub record InvalidBreakdown : Type 0 where
  pub free_count : ℕ
  pub disabled_count : ℕ
  pub banned_count : ℕ
  pub null_count : ℕ
  pub restricted_count : ℕ
  pub too_many_request_count : ℕ

-- `AuthSourceCounts`.
pub record AuthSourceCounts : Type 0 where
  pub oauth_count : ℕ
  pub cookie_count : ℕ
  pub api_key_count : ℕ

-- `AccountHealthSummary`, without the probes, which are passed on.
pub record AccountHealthSummary : Type 0 where
  pub total : ℕ
  pub pool : PoolCounts
  pub detail : HealthDetail
  pub invalid_breakdown : InvalidBreakdown
  pub auth_sources : AuthSourceCounts
  pub generated_at : ℤ

abbrev pub no_detail : HealthDetail
no_detail = record {
  dispatchable_now = 0;
  saturated = 0;
  cooling_down_count = 0;
  probing = 0;
  invalid_auth = 0;
  invalid_disabled = 0;
  unconfigured_count = 0;
}

abbrev pub no_invalid : InvalidBreakdown
no_invalid = record {
  free_count = 0;
  disabled_count = 0;
  banned_count = 0;
  null_count = 0;
  restricted_count = 0;
  too_many_request_count = 0;
}

abbrev pub no_sources : AuthSourceCounts
no_sources = record { oauth_count = 0; cookie_count = 0; api_key_count = 0 }

abbrev pub no_accounts : PoolCounts
no_accounts = record { valid = 0; exhausted = 0; invalid_count = 0 }

-- `inflight_saturated`.
unfoldable pub inflight_saturated : Option (ℕ × ℕ) → Bool
inflight_saturated none = false
inflight_saturated (some (cur, max)) = ltb 0 max && leb max cur

unfoldable pub count_source : String → AuthSourceCounts → AuthSourceCounts
count_source s n =
    if str_eq s "oauth"
    then record n { oauth_count = n.oauth_count + 1 }
    else if str_eq s "cookie"
    then record n { cookie_count = n.cookie_count + 1 }
    else if str_eq s "api_key"
    then record n { api_key_count = n.api_key_count + 1 }
    else n

unfoldable pub count_state : Option (ℕ × ℕ) → AccountHealthState → HealthDetail → HealthDetail
count_state inflight active d =
    if inflight_saturated inflight
    then record d { saturated = d.saturated + 1 }
    else record d { dispatchable_now = d.dispatchable_now + 1 }
count_state inflight (cooling_down t) d = record d { cooling_down_count = d.cooling_down_count + 1 }
count_state inflight (invalid auth_error reason) d = record d { invalid_auth = d.invalid_auth + 1 }
count_state inflight (invalid disabled_account reason) d = record d {
  invalid_disabled = d.invalid_disabled + 1;
}
count_state inflight unconfigured d = record d { unconfigured_count = d.unconfigured_count + 1 }

unfoldable pub count_reason : AccountHealthState → InvalidBreakdown → InvalidBreakdown
count_reason (invalid kind (some free)) n = record n { free_count = n.free_count + 1 }
count_reason (invalid kind (some disabled)) n = record n { disabled_count = n.disabled_count + 1 }
count_reason (invalid kind (some banned)) n = record n { banned_count = n.banned_count + 1 }
count_reason (invalid kind (some null)) n = record n { null_count = n.null_count + 1 }
count_reason (invalid kind (some (restricted t))) n = record n {
  restricted_count = n.restricted_count + 1;
}
count_reason (invalid kind (some (too_many_request t))) n = record n {
  too_many_request_count = n.too_many_request_count + 1;
}
count_reason _ n = n

abbrev pub count_probing : Bool → HealthDetail → HealthDetail
count_probing true d = record d { probing = d.probing + 1 }
count_probing false d = d

-- The three counters of the loop of `summarize`.
abbrev pub Counters : Type 0
Counters = HealthDetail × InvalidBreakdown × AuthSourceCounts

abbrev pub count_health : Option (ℕ × ℕ) → Option AccountHealth → Counters → Counters
count_health inflight none c = c
count_health inflight (some h) (d, b, a) =
    (count_state inflight h.state (count_probing h.probing d), count_reason h.state b, a)

-- The loop of `summarize`.
unfoldable pub summarize_from :
    List (ℕ × AccountHealth) → List (ℕ × (ℕ × ℕ)) → List AccountWithRuntime → Counters → Counters
summarize_from per_account inflight [] c = c
summarize_from per_account inflight (a ∷ accounts) (d, b, s) =
    summarize_from per_account inflight accounts
      (count_health (get a.id inflight) (get a.id per_account) (d, b, count_source a.auth_source s))

unfoldable pub count_pool : AccountHealthState → PoolCounts → PoolCounts
count_pool active n = record n { valid = n.valid + 1 }
count_pool (cooling_down t) n = record n { exhausted = n.exhausted + 1 }
count_pool (invalid kind reason) n = record n { invalid_count = n.invalid_count + 1 }
count_pool unconfigured n = n

-- The loop that derives the pool's counts.
unfoldable pub pool_counts_from : List AccountHealth → PoolCounts → PoolCounts
pool_counts_from [] n = n
pool_counts_from (h ∷ hs) n = pool_counts_from hs (count_pool h.state n)

-- The loop of `compose_health_snapshot`.
unfoldable pub per_account_from :
    ℤ
    → PoolSnapshotView
    → ℤ
    → List AccountWithRuntime
    → List (ℕ × AccountHealth)
    → List (ℕ × AccountHealth)
per_account_from clock view now [] m = m
per_account_from clock view now (a ∷ accounts) m =
    per_account_from clock view now accounts
      (insert a.id (compose_health clock a (account_view view a.id) now) m)

-- `summarize`.
unfoldable pub summarize :
    List AccountWithRuntime
    → List (ℕ × AccountHealth)
    → List (ℕ × (ℕ × ℕ))
    → PoolCounts
    → ℤ
    → AccountHealthSummary
summarize accounts per_account inflight pool_counts generated_at =
    let counters =
      summarize_from per_account inflight accounts (no_detail, no_invalid, no_sources) in
    record {
      total = length accounts;
      pool = pool_counts;
      detail = counters.0;
      invalid_breakdown = counters.1;
      auth_sources = counters.2;
      generated_at = generated_at;
    }

-- `compose_health_snapshot`.
unfoldable pub compose_health_snapshot :
    ℤ
    → PoolSnapshotView
    → List AccountWithRuntime
    → ℤ
    → AccountHealthSummary × List (ℕ × AccountHealth)
compose_health_snapshot clock view accounts now =
    let per_account = per_account_from clock view now accounts [] in
    let counts = pool_counts_from (values per_account) no_accounts in
    (summarize accounts per_account view.inflight counts now, per_account)
