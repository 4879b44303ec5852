-- ===== src/Config/Usage.antt =====
-- src/config/cookie.rs: token counters, one `UsageBreakdown` for each quota window. `u64` values.
pub mod Bounds
use clewdr_hub.Common.{ℕ, ◌+◌, ◌-◌, ◌^◌, ◌&&◌, min, ◌==◌, if◌then◌else◌}

-- `ModelFamily`.
pub data ModelFamily : Type 0 where
  sonnet opus other : ModelFamily

-- `UsageBreakdown`.
pub record UsageBreakdown : Type 0 where
  pub total_input_tokens : ℕ
  pub total_output_tokens : ℕ
  pub sonnet_input_tokens : ℕ
  pub sonnet_output_tokens : ℕ
  pub opus_input_tokens : ℕ
  pub opus_output_tokens : ℕ

-- `UsageBreakdown::default()`.
abbrev pub no_usage : UsageBreakdown
no_usage = record {
  total_input_tokens = 0;
  total_output_tokens = 0;
  sonnet_input_tokens = 0;
  sonnet_output_tokens = 0;
  opus_input_tokens = 0;
  opus_output_tokens = 0;
}

abbrev pub u64_max : ℕ
u64_max = 2 ^ 64 - 1

-- `u64::saturating_add`.
unfoldable pub saturating_add : ℕ → ℕ → ℕ
saturating_add a b = min (a + b) u64_max

-- The two statements that add to a bucket's totals.
unfoldable pub add_total : ℕ → ℕ → UsageBreakdown → UsageBreakdown
add_total input output u = record u {
  total_input_tokens = saturating_add u.total_input_tokens input;
  total_output_tokens = saturating_add u.total_output_tokens output;
}

-- The match on the family that follows them.
unfoldable pub add_family : ModelFamily → ℕ → ℕ → UsageBreakdown → UsageBreakdown
add_family sonnet input output u = record u {
  sonnet_input_tokens = saturating_add u.sonnet_input_tokens input;
  sonnet_output_tokens = saturating_add u.sonnet_output_tokens output;
}
add_family opus input output u = record u {
  opus_input_tokens = saturating_add u.opus_input_tokens input;
  opus_output_tokens = saturating_add u.opus_output_tokens output;
}
add_family other input output u = u

-- The five windows of an account.
pub record Windows : Type 0 where
  pub session_usage : UsageBreakdown
  pub weekly_usage : UsageBreakdown
  pub weekly_sonnet_usage : UsageBreakdown
  pub weekly_opus_usage : UsageBreakdown
  pub lifetime_usage : UsageBreakdown

-- Only Sonnet requests count for the weekly Sonnet window, and so for Opus.
unfoldable pub add_weekly_sonnet : ModelFamily → ℕ → ℕ → UsageBreakdown → UsageBreakdown
add_weekly_sonnet sonnet input output u = add_family sonnet input output (add_total input output u)
add_weekly_sonnet opus input output u = u
add_weekly_sonnet other input output u = u

unfoldable pub add_weekly_opus : ModelFamily → ℕ → ℕ → UsageBreakdown → UsageBreakdown
add_weekly_opus sonnet input output u = u
add_weekly_opus opus input output u = add_family opus input output (add_total input output u)
add_weekly_opus other input output u = u

unfoldable pub bucket_windows : ℕ → ℕ → ModelFamily → Windows → Windows
bucket_windows input output family w = record {
  session_usage = add_family family input output (add_total input output w.session_usage);
  weekly_usage = add_family family input output (add_total input output w.weekly_usage);
  weekly_sonnet_usage = add_weekly_sonnet family input output w.weekly_sonnet_usage;
  weekly_opus_usage = add_weekly_opus family input output w.weekly_opus_usage;
  lifetime_usage = add_family family input output (add_total input output w.lifetime_usage);
}

-- `AccountSlot::add_and_bucket_usage`, on the windows.
unfoldable pub add_and_bucket_usage : ℕ → ℕ → ModelFamily → Windows → Windows
add_and_bucket_usage input output family w =
    if input == 0 && output == 0 then w else bucket_windows input output family w
