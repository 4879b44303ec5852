-- ===== src/Config/Runtime.antt =====
-- src/config/cookie.rs: the runtime fields of a slot, as they are written to and read from the database,
-- and the two ways of merging them into a slot.
pub mod Laws
use clewdr_hub.Common.{Bool, Option, List, ℤ, if◌then◌else◌, or_else}
use clewdr_hub.Config.Usage.{UsageBreakdown}
use clewdr_hub.Config.Slot.{F64, ScopedWeeklyLimit, AccountSlot}

-- `RuntimeStateParams`. Its array of five buckets is a tuple: session, weekly, weekly Sonnet, weekly
-- Opus, lifetime.
pub record RuntimeStateParams : Type 0 where
  pub reset_time : Option ℤ
  pub supports_claude_1m_sonnet : Option Bool
  pub supports_claude_1m_opus : Option Bool
  pub count_tokens_allowed : Option Bool
  pub session_resets_at : Option ℤ
  pub weekly_resets_at : Option ℤ
  pub weekly_sonnet_resets_at : Option ℤ
  pub weekly_opus_resets_at : Option ℤ
  pub resets_last_checked_at : Option ℤ
  pub session_has_reset : Option Bool
  pub weekly_has_reset : Option Bool
  pub weekly_sonnet_has_reset : Option Bool
  pub weekly_opus_has_reset : Option Bool
  pub session_utilization : Option F64
  pub weekly_utilization : Option F64
  pub weekly_sonnet_utilization : Option F64
  pub weekly_opus_utilization : Option F64
  pub buckets : UsageBreakdown × UsageBreakdown × UsageBreakdown × UsageBreakdown × UsageBreakdown
  pub weekly_scoped_limits : List ScopedWeeklyLimit

-- `AccountSlot::to_runtime_params`.
unfoldable pub to_runtime_params : AccountSlot → RuntimeStateParams
to_runtime_params s = record {
  reset_time = s.reset_time;
  supports_claude_1m_sonnet = s.supports_claude_1m_sonnet;
  supports_claude_1m_opus = s.supports_claude_1m_opus;
  count_tokens_allowed = s.count_tokens_allowed;
  session_resets_at = s.session_resets_at;
  weekly_resets_at = s.weekly_resets_at;
  weekly_sonnet_resets_at = s.weekly_sonnet_resets_at;
  weekly_opus_resets_at = s.weekly_opus_resets_at;
  resets_last_checked_at = s.resets_last_checked_at;
  session_has_reset = s.session_has_reset;
  weekly_has_reset = s.weekly_has_reset;
  weekly_sonnet_has_reset = s.weekly_sonnet_has_reset;
  weekly_opus_has_reset = s.weekly_opus_has_reset;
  session_utilization = s.session_utilization;
  weekly_utilization = s.weekly_utilization;
  weekly_sonnet_utilization = s.weekly_sonnet_utilization;
  weekly_opus_utilization = s.weekly_opus_utilization;
  buckets = (
    s.session_usage, s.weekly_usage, s.weekly_sonnet_usage, s.weekly_opus_usage, s.lifetime_usage,
  );
  weekly_scoped_limits = s.weekly_scoped_limits;
}

-- `AccountSlot::apply_runtime_state`.
unfoldable pub apply_runtime_state : RuntimeStateParams → AccountSlot → AccountSlot
apply_runtime_state p s = record s {
  reset_time = p.reset_time;
  supports_claude_1m_sonnet = p.supports_claude_1m_sonnet;
  supports_claude_1m_opus = p.supports_claude_1m_opus;
  count_tokens_allowed = p.count_tokens_allowed;
  session_resets_at = p.session_resets_at;
  weekly_resets_at = p.weekly_resets_at;
  weekly_sonnet_resets_at = p.weekly_sonnet_resets_at;
  weekly_opus_resets_at = p.weekly_opus_resets_at;
  resets_last_checked_at = p.resets_last_checked_at;
  session_has_reset = p.session_has_reset;
  weekly_has_reset = p.weekly_has_reset;
  weekly_sonnet_has_reset = p.weekly_sonnet_has_reset;
  weekly_opus_has_reset = p.weekly_opus_has_reset;
  session_utilization = p.session_utilization;
  weekly_utilization = p.weekly_utilization;
  weekly_sonnet_utilization = p.weekly_sonnet_utilization;
  weekly_opus_utilization = p.weekly_opus_utilization;
  session_usage = p.buckets.0;
  weekly_usage = p.buckets.1;
  weekly_sonnet_usage = p.buckets.2;
  weekly_opus_usage = p.buckets.3;
  lifetime_usage = p.buckets.4;
  weekly_scoped_limits = p.weekly_scoped_limits;
}

-- `AccountSlot::apply_oauth_snapshot_runtime`.
unfoldable pub apply_oauth_snapshot_runtime : RuntimeStateParams → AccountSlot → AccountSlot
apply_oauth_snapshot_runtime p s = record s {
  reset_time = p.reset_time;
  session_resets_at = p.session_resets_at;
  weekly_resets_at = p.weekly_resets_at;
  weekly_sonnet_resets_at = p.weekly_sonnet_resets_at;
  weekly_opus_resets_at = p.weekly_opus_resets_at;
  resets_last_checked_at = p.resets_last_checked_at;
  session_has_reset = p.session_has_reset;
  weekly_has_reset = p.weekly_has_reset;
  weekly_sonnet_has_reset = p.weekly_sonnet_has_reset;
  weekly_opus_has_reset = p.weekly_opus_has_reset;
  session_utilization = p.session_utilization;
  weekly_utilization = p.weekly_utilization;
  weekly_sonnet_utilization = p.weekly_sonnet_utilization;
  weekly_opus_utilization = p.weekly_opus_utilization;
  weekly_scoped_limits = p.weekly_scoped_limits;
}

-- `apply_in_memory_runtime` of src/services/account_pool/fingerprint.rs: the slot that a reload has built
-- from its row takes over what the pool had in memory.
unfoldable pub apply_in_memory_runtime : AccountSlot → AccountSlot → Bool → AccountSlot
apply_in_memory_runtime dst mem preserve_token = record dst {
  token = if preserve_token then mem.token else dst.token;
  reset_time = mem.reset_time;
  supports_claude_1m_sonnet = mem.supports_claude_1m_sonnet;
  supports_claude_1m_opus = mem.supports_claude_1m_opus;
  count_tokens_allowed = mem.count_tokens_allowed;
  session_resets_at = mem.session_resets_at;
  weekly_resets_at = mem.weekly_resets_at;
  weekly_sonnet_resets_at = mem.weekly_sonnet_resets_at;
  weekly_opus_resets_at = mem.weekly_opus_resets_at;
  resets_last_checked_at = mem.resets_last_checked_at;
  session_has_reset = mem.session_has_reset;
  weekly_has_reset = mem.weekly_has_reset;
  weekly_sonnet_has_reset = mem.weekly_sonnet_has_reset;
  weekly_opus_has_reset = mem.weekly_opus_has_reset;
  session_utilization = mem.session_utilization;
  weekly_utilization = mem.weekly_utilization;
  weekly_sonnet_utilization = mem.weekly_sonnet_utilization;
  weekly_opus_utilization = mem.weekly_opus_utilization;
  session_usage = mem.session_usage;
  weekly_usage = mem.weekly_usage;
  weekly_sonnet_usage = mem.weekly_sonnet_usage;
  weekly_opus_usage = mem.weekly_opus_usage;
  lifetime_usage = mem.lifetime_usage;
  weekly_scoped_limits = mem.weekly_scoped_limits;
  email = or_else dst.email mem.email;
  account_type = or_else dst.account_type mem.account_type;
}
