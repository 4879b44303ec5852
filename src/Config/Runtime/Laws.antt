-- ===== src/Config/Runtime/Laws.antt =====
-- src/config/cookie.rs: what the merges of runtime fields change, and what they leave alone.
use clewdr_hub.Common.{◌≡◌, refl, Bool, arith, if◌then◌else◌}
use clewdr_hub.Config.Slot.{AccountSlot}
use clewdr_hub.Config.Runtime.{
  RuntimeStateParams, to_runtime_params, apply_runtime_state, apply_oauth_snapshot_runtime,
  apply_in_memory_runtime,
}

-- The fields of a slot that say which account it is and how it authenticates.
pub record SameCredential (s t : AccountSlot) : Type 0 where
  pub cookie_blob : t.cookie_blob ≡ s.cookie_blob
  pub auth_method : t.auth_method ≡ s.auth_method
  pub account_id : t.account_id ≡ s.account_id
  pub proxy_url : t.proxy_url ≡ s.proxy_url
  pub token : t.token ≡ s.token
  pub api_key_base_url : t.api_key_base_url ≡ s.api_key_base_url
  pub api_key_secret : t.api_key_secret ≡ s.api_key_secret
  pub api_key_extra_headers : t.api_key_extra_headers ≡ s.api_key_extra_headers
  pub api_key_extra_body : t.api_key_extra_body ≡ s.api_key_extra_body
  pub mimicry_mode : t.mimicry_mode ≡ s.mimicry_mode
  pub mimicry_config : t.mimicry_config ≡ s.mimicry_config

-- The counters and capability probes that only this program keeps.
pub record SameLocal (s t : AccountSlot) : Type 0 where
  pub session_usage : t.session_usage ≡ s.session_usage
  pub weekly_usage : t.weekly_usage ≡ s.weekly_usage
  pub weekly_sonnet_usage : t.weekly_sonnet_usage ≡ s.weekly_sonnet_usage
  pub weekly_opus_usage : t.weekly_opus_usage ≡ s.weekly_opus_usage
  pub lifetime_usage : t.lifetime_usage ≡ s.lifetime_usage
  pub sonnet_1m : t.supports_claude_1m_sonnet ≡ s.supports_claude_1m_sonnet
  pub opus_1m : t.supports_claude_1m_opus ≡ s.supports_claude_1m_opus
  pub count_tokens : t.count_tokens_allowed ≡ s.count_tokens_allowed

-- Reading back the runtime fields that were just applied gives them again, all of them, and the slot's
-- credential is untouched; and applying a slot's own runtime fields to it changes nothing.
pub apply-to_runtime_params :
    (p : RuntimeStateParams) (s : AccountSlot)
    → (to_runtime_params (apply_runtime_state p s) ≡ p)
      × SameCredential s (apply_runtime_state p s)
      × (apply_runtime_state (to_runtime_params s) s ≡ s)
unfolding to_runtime_params apply_runtime_state
apply-to_runtime_params p s = (refl, ground arith, refl)

-- An OAuth snapshot leaves the credential and everything that only this program counts as they were,
-- and any later snapshot takes its place without a trace.
pub apply_oauth_snapshot_runtime-SameLocal :
    (p q : RuntimeStateParams) (s : AccountSlot)
    → SameCredential s (apply_oauth_snapshot_runtime p s)
      × SameLocal s (apply_oauth_snapshot_runtime p s)
      × (apply_oauth_snapshot_runtime q (apply_oauth_snapshot_runtime p s)
          ≡ apply_oauth_snapshot_runtime q s)
unfolding apply_oauth_snapshot_runtime
apply_oauth_snapshot_runtime-SameLocal p q s = (ground arith, ground arith, refl)

-- After a reload a slot has its row's identity, kind and secrets, the memory's runtime fields, and the
-- row's token unless it is told to keep the memory's.
pub apply_in_memory_runtime-SameRuntime :
    (dst mem : AccountSlot) (keep : Bool)
    → (to_runtime_params (apply_in_memory_runtime dst mem keep) ≡ to_runtime_params mem)
      × ((apply_in_memory_runtime dst mem keep).token ≡ (if keep then mem.token else dst.token))
      × SameCredential dst (record (apply_in_memory_runtime dst mem keep) { token = dst.token })
unfolding apply_in_memory_runtime to_runtime_params
apply_in_memory_runtime-SameRuntime dst mem keep = (refl, refl, ground arith)
