-- ===== src/Config/Usage/Bounds.antt =====
-- src/config/cookie.rs: what the token counters keep.
use clewdr_hub.Common.{ℕ, ◌≤◌, ◌≡◌, ap, arith, Bool-cases, inl, inr, ◌==◌, ◌&&◌}
use clewdr_hub.Config.Usage.{
  ModelFamily, sonnet, opus, other, UsageBreakdown, u64_max, saturating_add, add_total, add_family,
  Windows, add_weekly_sonnet, add_weekly_opus, bucket_windows, add_and_bucket_usage,
}

-- Every counter is a `u64`, and no family has more than the total.
pub record IsConsistent (u : UsageBreakdown) : Type 0 where
  pub input : u.total_input_tokens ≤ u64_max
  pub output : u.total_output_tokens ≤ u64_max
  pub sonnet_input : u.sonnet_input_tokens ≤ u.total_input_tokens
  pub sonnet_output : u.sonnet_output_tokens ≤ u.total_output_tokens
  pub opus_input : u.opus_input_tokens ≤ u.total_input_tokens
  pub opus_output : u.opus_output_tokens ≤ u.total_output_tokens

-- The weekly window of a family counts nothing but that family.
pub record AreConsistent (w : Windows) : Type 0 where
  pub session : IsConsistent w.session_usage
  pub weekly : IsConsistent w.weekly_usage
  pub weekly_sonnet : IsConsistent w.weekly_sonnet_usage
  pub weekly_opus : IsConsistent w.weekly_opus_usage
  pub lifetime : IsConsistent w.lifetime_usage
  pub sonnet_only_input :
      w.weekly_sonnet_usage.sonnet_input_tokens ≡ w.weekly_sonnet_usage.total_input_tokens
  pub sonnet_only_output :
      w.weekly_sonnet_usage.sonnet_output_tokens ≡ w.weekly_sonnet_usage.total_output_tokens
  pub opus_only_input :
      w.weekly_opus_usage.opus_input_tokens ≡ w.weekly_opus_usage.total_input_tokens
  pub opus_only_output :
      w.weekly_opus_usage.opus_output_tokens ≡ w.weekly_opus_usage.total_output_tokens

add_family-IsConsistent :
    (family : ModelFamily) (i o : ℕ) (u : UsageBreakdown)
    → IsConsistent u
    → IsConsistent (add_family family i o (add_total i o u))
unfolding add_family add_total saturating_add
add_family-IsConsistent sonnet i o u c = omega arith
add_family-IsConsistent opus i o u c = omega arith
add_family-IsConsistent other i o u c = omega arith

bucket_windows-AreConsistent :
    (i o : ℕ) (family : ModelFamily) (w : Windows)
    → AreConsistent w
    → AreConsistent (bucket_windows i o family w)
unfolding bucket_windows add_weekly_sonnet add_weekly_opus add_family add_total
bucket_windows-AreConsistent i o sonnet w c = record {
  session = add_family-IsConsistent sonnet i o w.session_usage c.session;
  weekly = add_family-IsConsistent sonnet i o w.weekly_usage c.weekly;
  weekly_sonnet = add_family-IsConsistent sonnet i o w.weekly_sonnet_usage c.weekly_sonnet;
  weekly_opus = c.weekly_opus;
  lifetime = add_family-IsConsistent sonnet i o w.lifetime_usage c.lifetime;
  sonnet_only_input = ap (λ n. saturating_add n i) c.sonnet_only_input;
  sonnet_only_output = ap (λ n. saturating_add n o) c.sonnet_only_output;
  opus_only_input = c.opus_only_input;
  opus_only_output = c.opus_only_output;
}
bucket_windows-AreConsistent i o opus w c = record {
  session = add_family-IsConsistent opus i o w.session_usage c.session;
  weekly = add_family-IsConsistent opus i o w.weekly_usage c.weekly;
  weekly_sonnet = c.weekly_sonnet;
  weekly_opus = add_family-IsConsistent opus i o w.weekly_opus_usage c.weekly_opus;
  lifetime = add_family-IsConsistent opus i o w.lifetime_usage c.lifetime;
  sonnet_only_input = c.sonnet_only_input;
  sonnet_only_output = c.sonnet_only_output;
  opus_only_input = ap (λ n. saturating_add n i) c.opus_only_input;
  opus_only_output = ap (λ n. saturating_add n o) c.opus_only_output;
}
bucket_windows-AreConsistent i o other w c = record {
  session = add_family-IsConsistent other i o w.session_usage c.session;
  weekly = add_family-IsConsistent other i o w.weekly_usage c.weekly;
  weekly_sonnet = c.weekly_sonnet;
  weekly_opus = c.weekly_opus;
  lifetime = add_family-IsConsistent other i o w.lifetime_usage c.lifetime;
  sonnet_only_input = c.sonnet_only_input;
  sonnet_only_output = c.sonnet_only_output;
  opus_only_input = c.opus_only_input;
  opus_only_output = c.opus_only_output;
}

-- Adding a request's tokens keeps every counter within `u64`, no family above the total of its
-- window, and the weekly Sonnet and Opus windows free of any other model.
pub add_and_bucket_usage-AreConsistent :
    (i o : ℕ) (family : ModelFamily) (w : Windows)
    → AreConsistent w
    → AreConsistent (add_and_bucket_usage i o family w)
unfolding add_and_bucket_usage
add_and_bucket_usage-AreConsistent i o family w c = elim (Bool-cases (i == 0 && o == 0)) [
  | inl e ↦ rw e c
  | inr e ↦ rw e (bucket_windows-AreConsistent i o family w c)
]
