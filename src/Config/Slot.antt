-- ===== src/Config/Slot.antt =====
-- src/config/cookie.rs: `AccountSlot`, what the pool knows of one account, and the runtime fields that
-- travel to the database and back. Row ids are natural numbers, timestamps integers; an `f64` is its
-- 64-bit pattern, so that 0.0 is 0; JSON values are kept as text.

use clewdr_hub.Common.{
  ℕ, String, Bool, Option, none, some, List, [], ◌==◌, if◌then◌else◌, ℤ, lebℤ, is_some_and,
}
use clewdr_hub.Config.Reason.{AuthMethod, cookie, oauth, api_key}
use clewdr_hub.Config.Usage.{UsageBreakdown, no_usage}

-- The bits of an `f64`.
abbrev pub F64 : Type 0
F64 = ℕ

-- `TokenInfo` of src/config/token.rs, with its `Organization`.
pub record TokenInfo : Type 0 where
  pub access_token : String
  pub expires_in : ℕ
  pub organization_uuid : String
  pub refresh_token : String
  pub expires_at : ℤ

-- `ScopedWeeklyLimit`.
pub record ScopedWeeklyLimit : Type 0 where
  pub model_display_name : String
  pub resets_at : Option ℤ
  pub utilization : Option F64

-- `MimicryMode` of src/config/mimicry.rs.
pub data MimicryMode : Type 0 where
  none_mode third_party : MimicryMode

-- `AccountSlot`.
pub record AccountSlot : Type 0 where
  pub cookie_blob : Option String
  pub auth_method : AuthMethod
  pub account_id : Option ℕ
  pub proxy_url : Option String
  pub token : Option TokenInfo
  pub reset_time : Option ℤ
  pub supports_claude_1m_sonnet : Option Bool
  pub supports_claude_1m_opus : Option Bool
  pub count_tokens_allowed : Option Bool
  pub session_usage : UsageBreakdown
  pub weekly_usage : UsageBreakdown
  pub weekly_sonnet_usage : UsageBreakdown
  pub weekly_opus_usage : UsageBreakdown
  pub lifetime_usage : UsageBreakdown
  pub session_resets_at : Option ℤ
  pub weekly_resets_at : Option ℤ
  pub weekly_sonnet_resets_at : Option ℤ
  pub weekly_opus_resets_at : Option ℤ
  pub resets_last_checked_at : Option ℤ
  pub session_has_reset : Option Bool
  pub weekly_has_reset : Option Bool
  pub weekly_sonnet_has_reset : Option Bool
  pub weekly_opus_has_reset : Option Bool
  pub email : Option String
  pub account_type : Option String
  pub session_utilization : Option F64
  pub weekly_utilization : Option F64
  pub weekly_sonnet_utilization : Option F64
  pub weekly_opus_utilization : Option F64
  pub weekly_scoped_limits : List ScopedWeeklyLimit
  pub api_key_base_url : Option String
  pub api_key_secret : Option String
  pub api_key_extra_headers : Option (List (String × String))
  pub api_key_extra_body : Option String
  pub mimicry_mode : MimicryMode
  pub mimicry_config : Option String

-- `AccountSlot::default()`.
abbrev pub default_slot : AccountSlot
default_slot = record {
  cookie_blob = none;
  auth_method = cookie;
  account_id = none;
  proxy_url = none;
  token = none;
  reset_time = none;
  supports_claude_1m_sonnet = none;
  supports_claude_1m_opus = none;
  count_tokens_allowed = none;
  session_usage = no_usage;
  weekly_usage = no_usage;
  weekly_sonnet_usage = no_usage;
  weekly_opus_usage = no_usage;
  lifetime_usage = no_usage;
  session_resets_at = none;
  weekly_resets_at = none;
  weekly_sonnet_resets_at = none;
  weekly_opus_resets_at = none;
  resets_last_checked_at = none;
  session_has_reset = none;
  weekly_has_reset = none;
  weekly_sonnet_has_reset = none;
  weekly_opus_has_reset = none;
  email = none;
  account_type = none;
  session_utilization = none;
  weekly_utilization = none;
  weekly_sonnet_utilization = none;
  weekly_opus_utilization = none;
  weekly_scoped_limits = [];
  api_key_base_url = none;
  api_key_secret = none;
  api_key_extra_headers = none;
  api_key_extra_body = none;
  mimicry_mode = none_mode;
  mimicry_config = none;
}

-- `AccountSlot::new`, after its cookie has been parsed.
unfoldable pub cookie_slot : String → Option ℤ → AccountSlot
cookie_slot blob reset_time = record default_slot {
  cookie_blob = some blob;
  reset_time = reset_time;
}

-- `AccountSlot::oauth`.
unfoldable pub oauth_slot : ℕ → TokenInfo → AccountSlot
oauth_slot id token = record default_slot {
  auth_method = oauth;
  account_id = some id;
  token = some token;
}

-- `AccountSlot::api_key`.
unfoldable pub api_key_slot :
    ℕ
    → String
    → String
    → Option (List (String × String))
    → Option String
    → MimicryMode
    → Option String
    → AccountSlot
api_key_slot id base_url secret extra_headers extra_body mode config = record default_slot {
  auth_method = api_key;
  account_id = some id;
  api_key_base_url = some base_url;
  api_key_secret = some secret;
  api_key_extra_headers = extra_headers;
  api_key_extra_body = extra_body;
  mimicry_mode = mode;
  mimicry_config = config;
}

-- `AccountSlot::reset_window_usage`.
unfoldable pub reset_window_usage : AccountSlot → AccountSlot
reset_window_usage s = record s {
  session_usage = no_usage;
  weekly_usage = no_usage;
  weekly_sonnet_usage = no_usage;
  weekly_opus_usage = no_usage;
}

-- `AccountSlot::reset` at the time `now`.
unfoldable pub reset_slot : ℤ → AccountSlot → AccountSlot
unfolding reset_window_usage
reset_slot now s =
    if is_some_and s.reset_time (λ t. lebℤ t now)
    then record (reset_window_usage s) { reset_time = none }
    else s

-- `c.account_id == Some(id)`.
abbrev pub has_id : ℕ → AccountSlot → Bool
has_id id s = is_some_and s.account_id (λ a. a == id)
