-- ===== src/Pool/Reset.antt =====
-- src/services/account_pool/state.rs: the two clocks of the pool. `reset` takes accounts out of their
-- cooldown, `refresh_usage_windows` opens new quota windows. The time is an argument, one for a turn.
pub mod Laws
use clewdr_hub.Common.{
  ℕ, ◌*◌, Bool, ◌&&◌, ◌||◌, Option, none, some, List, [], ◌∷◌, ◌++◌, if◌then◌else◌, is_none,
  is_some_and, map, retain, any, ℤ, pos, ◌+ℤ◌, lebℤ,
}
use clewdr_hub.Config.Usage.{UsageBreakdown, no_usage}
use clewdr_hub.Config.Slot.{F64, AccountSlot, reset_slot}
use clewdr_hub.Pool.State.{PoolState, mark_slots, values}

abbrev pub session_window_secs : ℕ
session_window_secs = 5 * 60 * 60

abbrev pub weekly_window_secs : ℕ
weekly_window_secs = 7 * 24 * 60 * 60

-- A slot that `AccountSlot::reset` leaves without a reset time goes back to `valid`.
unfoldable pub is_recovered : ℤ → AccountSlot → Bool
is_recovered now c = is_none (reset_slot now c).reset_time

-- The slots that `retain` collects, in the map's order.
unfoldable pub recovered : ℤ → List (ℕ × AccountSlot) → List AccountSlot
recovered now [] = []
recovered now ((k, c) ∷ m) =
    let rest = recovered now m in if is_recovered now c then reset_slot now c ∷ rest else rest

-- The entries that it keeps.
unfoldable pub still_exhausted : ℤ → List (ℕ × AccountSlot) → List (ℕ × AccountSlot)
still_exhausted now [] = []
still_exhausted now ((k, c) ∷ m) =
    let rest = still_exhausted now m in if is_recovered now c then rest else (k, c) ∷ rest

unfoldable pub requeue :
    {C : Type 0} → List AccountSlot → List (ℕ × AccountSlot) → PoolState C → PoolState C
requeue [] kept s = s
requeue (c ∷ cs) kept s = record s {
  valid = s.valid ++ (c ∷ cs);
  exhausted = kept;
  dirty = mark_slots (c ∷ cs) s.dirty;
}

-- One window of a slot: the fields that `reset_if_due` writes.
pub record Window : Type 0 where
  pub resets_at : Option ℤ
  pub usage : UsageBreakdown
  pub utilization : Option F64

unfoldable pub is_due : Option Bool → Option ℤ → ℤ → Bool
is_due has_reset resets_at now =
    is_some_and has_reset (λ b. b) && is_some_and resets_at (λ ts. lebℤ ts now)

-- `reset_if_due`, and whether it did anything is `is_due`. An empty window has the utilization 0.0.
unfoldable pub reset_if_due : Option Bool → ℕ → ℤ → Window → Window
reset_if_due has_reset window_secs now w =
    if is_due has_reset w.resets_at now
    then record {
      resets_at = some (now +ℤ pos window_secs);
      usage = no_usage;
      utilization = some 0;
    }
    else w

abbrev session_window : ℤ → AccountSlot → Window
session_window now c = reset_if_due c.session_has_reset session_window_secs now (record {
  resets_at = c.session_resets_at;
  usage = c.session_usage;
  utilization = c.session_utilization;
})

abbrev weekly_window : ℤ → AccountSlot → Window
weekly_window now c = reset_if_due c.weekly_has_reset weekly_window_secs now (record {
  resets_at = c.weekly_resets_at;
  usage = c.weekly_usage;
  utilization = c.weekly_utilization;
})

abbrev weekly_sonnet_window : ℤ → AccountSlot → Window
weekly_sonnet_window now c = reset_if_due c.weekly_sonnet_has_reset weekly_window_secs now (record {
  resets_at = c.weekly_sonnet_resets_at;
  usage = c.weekly_sonnet_usage;
  utilization = c.weekly_sonnet_utilization;
})

abbrev weekly_opus_window : ℤ → AccountSlot → Window
weekly_opus_window now c = reset_if_due c.weekly_opus_has_reset weekly_window_secs now (record {
  resets_at = c.weekly_opus_resets_at;
  usage = c.weekly_opus_usage;
  utilization = c.weekly_opus_utilization;
})

-- `apply_resets`: the slot, and below whether it changed.
unfoldable pub apply_resets : ℤ → AccountSlot → AccountSlot
unfolding reset_if_due
apply_resets now c = record c {
  session_resets_at = (session_window now c).resets_at;
  session_usage = (session_window now c).usage;
  session_utilization = (session_window now c).utilization;
  weekly_resets_at = (weekly_window now c).resets_at;
  weekly_usage = (weekly_window now c).usage;
  weekly_utilization = (weekly_window now c).utilization;
  weekly_sonnet_resets_at = (weekly_sonnet_window now c).resets_at;
  weekly_sonnet_usage = (weekly_sonnet_window now c).usage;
  weekly_sonnet_utilization = (weekly_sonnet_window now c).utilization;
  weekly_opus_resets_at = (weekly_opus_window now c).resets_at;
  weekly_opus_usage = (weekly_opus_window now c).usage;
  weekly_opus_utilization = (weekly_opus_window now c).utilization;
}

unfoldable pub resets_any : ℤ → AccountSlot → Bool
resets_any now c =
    is_due c.session_has_reset c.session_resets_at now
    || is_due c.weekly_has_reset c.weekly_resets_at now
    || is_due c.weekly_sonnet_has_reset c.weekly_sonnet_resets_at now
    || is_due c.weekly_opus_has_reset c.weekly_opus_resets_at now

unfoldable pub map_values :
    (AccountSlot → AccountSlot) → List (ℕ × AccountSlot) → List (ℕ × AccountSlot)
map_values f [] = []
map_values f ((k, c) ∷ m) = (k, f c) ∷ map_values f m

module _ {C : Type 0} where
  -- `AccountPoolActor::reset`.
  unfoldable pub reset : ℤ → PoolState C → PoolState C
  reset now s = requeue (recovered now s.exhausted) (still_exhausted now s.exhausted) s

  -- `AccountPoolActor::refresh_usage_windows`: the slots that change are marked. The result says whether
  -- any did.
  unfoldable pub refresh_usage_windows : ℤ → PoolState C → PoolState C × Bool
  refresh_usage_windows now s = (
    record s {
      valid = map (apply_resets now) s.valid;
      exhausted = map_values (apply_resets now) s.exhausted;
      dirty =
          mark_slots (retain (resets_any now) (values s.exhausted))
            (mark_slots (retain (resets_any now) s.valid) s.dirty);
    },
    any (resets_any now) s.valid || any (resets_any now) (values s.exhausted),
  )
