-- ===== src/Examples/Views.antt =====
-- The theorems on the health view, at a pool and four rows.
use clewdr_hub.Common.{ℕ, ◌+◌, ◌≡◌, refl, inl, false, none, some, List, [], ◌∷◌, count, pos}
use clewdr_hub.Pool.Actor.{PoolSnapshotView, snapshot_view}
use clewdr_hub.Config.Row.{AccountWithRuntime, AreDistinct}
use clewdr_hub.Health.{PoolAccountView, PoolBucket, in_valid}
use clewdr_hub.Health.Precedence.{IsOut, compose_health-IsOut}
use clewdr_hub.Health.Summary.{compose_health_snapshot}
use clewdr_hub.Health.Summary.Partition.{compose_health_snapshot-AreDistinct}
use clewdr_hub.Examples.Inputs.{pool}

abbrev pub row : ℕ → AccountWithRuntime
row id = record {
  id = id;
  status = "active";
  auth_source = "api_key";
  cookie_blob = none;
  oauth_token = none;
  api_key_base_url = some "https://api";
  api_key_secret = some "sk-ant-1";
  invalid_reason = none;
  last_failure = none;
  max_slots = pos 5;
  proxy_url = none;
  drain_first = false;
  last_refresh_at = none;
  email = none;
  account_type = none;
  api_key_extra_headers = none;
  api_key_extra_body = none;
  mimicry_mode = "none";
  mimicry_config = none;
  runtime = none;
}

abbrev pub rows : List AccountWithRuntime
rows = row 1 ∷ row 2 ∷ row 3 ∷ row 4 ∷ []

pub rows-AreDistinct : AreDistinct rows
unfolding count
rows-AreDistinct = (refl, (refl, (refl, (refl, tt))))

abbrev seen : PoolSnapshotView
seen = snapshot_view pool

compose_health_snapshot-AreDistinct_example :
    ((compose_health_snapshot (pos 50) seen rows (pos 50)).0.pool.valid
      ≡ (compose_health_snapshot (pos 50) seen rows (pos 50)).0.detail.dispatchable_now
        + (compose_health_snapshot (pos 50) seen rows (pos 50)).0.detail.saturated)
    × ((compose_health_snapshot (pos 50) seen rows (pos 50)).0.pool.exhausted
        ≡ (compose_health_snapshot (pos 50) seen rows (pos 50)).0.detail.cooling_down_count)
    × ((compose_health_snapshot (pos 50) seen rows (pos 50)).0.pool.invalid_count
        ≡ (compose_health_snapshot (pos 50) seen rows (pos 50)).0.detail.invalid_auth
          + (compose_health_snapshot (pos 50) seen rows (pos 50)).0.detail.invalid_disabled)
    × ((compose_health_snapshot (pos 50) seen rows (pos 50)).0.total
        ≡ (compose_health_snapshot (pos 50) seen rows (pos 50)).0.pool.valid
          + (compose_health_snapshot (pos 50) seen rows (pos 50)).0.pool.exhausted
          + (compose_health_snapshot (pos 50) seen rows (pos 50)).0.pool.invalid_count
          + (compose_health_snapshot (pos 50) seen rows (pos 50)).0.detail.unconfigured_count)
compose_health_snapshot-AreDistinct_example =
    compose_health_snapshot-AreDistinct (pos 50) seen rows (pos 50) rows-AreDistinct

abbrev view_in : PoolBucket → PoolAccountView
view_in bucket = record {
  bucket = some bucket;
  inflight = none;
  probing = false;
  reactivated = false;
  last_probe_error = none;
}

abbrev rejected_row : AccountWithRuntime
rejected_row = record (row 1) { status = "auth_error"; last_failure = some "{}" }

compose_health-IsOut_example : IsOut (pos 50) rejected_row (view_in in_valid) (pos 50)
compose_health-IsOut_example =
    compose_health-IsOut (pos 50) rejected_row (view_in in_valid) (pos 50) (inl refl) refl
