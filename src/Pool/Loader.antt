-- ===== src/Pool/Loader.antt =====
-- src/services/account_pool/persistence.rs: the slot that `do_reload` makes of a row, and `build_cookie_probe_slot` of
-- probes.rs. JSON is read by the crate serde_json, a parameter.
use text.Mathlib.Text.{◌==◌ as str_eq}
use clewdr_hub.Common.{
  String, Bool, true, false, not, ◌&&◌, ◌||◌, Option, none, some, List, [], ◌∷◌, if◌then◌else◌,
  is_some, and_then, or_else, unwrap_or, filter_option, ◌==◌, ℤ, pos_part, neg_part,
}
use clewdr_hub.Config.Reason.{cookie, api_key, from_auth_source, auth_method_eq}
use clewdr_hub.Config.Slot.{
  AccountSlot, MimicryMode, none_mode, third_party, oauth_slot, api_key_slot,
}
use clewdr_hub.Config.Runtime.{RuntimeStateParams, apply_runtime_state, apply_in_memory_runtime}
use clewdr_hub.Config.Row.{AccountWithRuntime, active_reset_time}
use clewdr_hub.Config.Cookie.{CookiePatterns, new_cookie_slot}

-- What the loader parses: a text as a map of texts, as a value and as a mimicry configuration (`none` is an
-- error); whether a value is an object with an entry; and the default configuration.
pub record Parsers : Type 0 where
  pub patterns : CookiePatterns
  pub extra_headers : String → Option (List (String × String))
  pub json_value : String → Option String
  pub is_filled_object : String → Bool
  pub mimicry_config : String → Option String
  pub default_mimicry_config : String

abbrev pub is_terminal : String → Bool
is_terminal status = str_eq status "disabled" || str_eq status "auth_error"

-- A row that has some credential.
abbrev pub has_any_credential : AccountWithRuntime → Bool
has_any_credential row =
    is_some row.cookie_blob || is_some row.oauth_token || is_some row.api_key_secret

-- `None | Some("") => None`.
abbrev pub filled : Option String → Option String
filled o = filter_option (λ s. not (str_eq s "")) o

abbrev some_if_filled : List (String × String) → Option (List (String × String))
some_if_filled [] = none
some_if_filled (e ∷ es) = some (e ∷ es)

unfoldable pub row_extra_headers : Parsers → Option String → Option (List (String × String))
row_extra_headers p raw =
    and_then (filled raw) (λ text. and_then (p.extra_headers text) some_if_filled)

unfoldable pub row_extra_body : Parsers → Option String → Option String
row_extra_body p raw =
    and_then (filled raw) (λ text. filter_option p.is_filled_object (p.json_value text))

-- `MimicryMode::from_db`.
unfoldable pub mimicry_from_db : String → MimicryMode
mimicry_from_db s = if str_eq s "third_party" then third_party else none_mode

unfoldable pub row_mimicry_config : Parsers → MimicryMode → Option String → Option String
row_mimicry_config p none_mode raw = none
row_mimicry_config p third_party raw =
    and_then (filled raw)
      (λ text. some (unwrap_or (p.mimicry_config text) p.default_mimicry_config))

-- The slot that a row's credential makes; `none` where the loader skips the row.
unfoldable pub row_slot : Parsers → AccountWithRuntime → Option AccountSlot
row_slot p row = elim (from_auth_source row.auth_source) [
  | api_key ↦ and_then row.api_key_base_url (λ base_url. and_then row.api_key_secret (λ secret.
      some (
        api_key_slot row.id base_url secret (row_extra_headers p row.api_key_extra_headers)
          (row_extra_body p row.api_key_extra_body) (mimicry_from_db row.mimicry_mode)
          (row_mimicry_config p (mimicry_from_db row.mimicry_mode) row.mimicry_config))))
  | other ↦ elim row.cookie_blob [
    | some text ↦ new_cookie_slot p.patterns text none
    | none ↦ elim row.oauth_token [ some token ↦ some (oauth_slot row.id token) | none ↦ none ]
  ]
]

-- The row's metadata, stamped onto its slot.
unfoldable pub stamp_row : AccountWithRuntime → AccountSlot → AccountSlot
stamp_row row cs = record cs {
  account_id = some row.id;
  auth_method = from_auth_source row.auth_source;
  proxy_url = row.proxy_url;
  email = row.email;
  account_type = row.account_type;
  token = or_else row.oauth_token cs.token;
}

unfoldable pub same_text : Option String → Option String → Bool
same_text none none = true
same_text (some a) (some b) = str_eq a b
same_text _ _ = false

unfoldable pub same_time : Option ℤ → Option ℤ → Bool
same_time none none = true
same_time (some a) (some b) = pos_part a == pos_part b && neg_part a == neg_part b
same_time _ _ = false

-- The same kind of credential, and for a cookie the same cookie.
unfoldable pub keeps_runtime : AccountSlot → AccountSlot → Bool
keeps_runtime mem cs =
    auth_method_eq mem.auth_method cs.auth_method
    && not (auth_method_eq cs.auth_method cookie && not (same_text mem.cookie_blob cs.cookie_blob))

-- A row's slot with its runtime; whether its credential was replaced, and whether it is to be marked.
pub record Loaded : Type 0 where
  pub slot : AccountSlot
  pub replaced : Bool
  pub marked : Bool

abbrev from_runtime : ℤ → AccountWithRuntime → AccountSlot → RuntimeStateParams → Loaded
from_runtime clock row cs r = record {
  slot = record (apply_runtime_state r cs) { reset_time = active_reset_time clock row };
  replaced = false;
  marked = not (same_time r.reset_time (active_reset_time clock row));
}

-- The merge of a row's slot with what the pool had in memory, or with the row's runtime.
unfoldable pub merge_slot : ℤ → AccountWithRuntime → AccountSlot → Option AccountSlot → Loaded
merge_slot clock row cs (some mem) =
    if keeps_runtime mem cs
    then record {
      slot = record (apply_in_memory_runtime cs mem (auth_method_eq cs.auth_method cookie)) {
        proxy_url = row.proxy_url;
      };
      replaced = false;
      marked = false;
    }
    else record { slot = cs; replaced = true; marked = false }
merge_slot clock row cs none =
    if auth_method_eq cs.auth_method api_key
    then record { slot = cs; replaced = false; marked = false }
    else elim row.runtime [
      | none ↦ record { slot = cs; replaced = false; marked = false }
      | some r ↦ from_runtime clock row cs r
    ]

abbrev with_runtime : Option RuntimeStateParams → AccountSlot → AccountSlot
with_runtime none slot = slot
with_runtime (some params) slot = apply_runtime_state params slot

-- `build_cookie_probe_slot` of probes.rs; `none` is an error, whose message is left out.
unfoldable pub build_cookie_probe_slot :
    Parsers → ℤ → AccountWithRuntime → Option RuntimeStateParams → Option AccountSlot
build_cookie_probe_slot p clock row mem_runtime = and_then row.cookie_blob (λ text.
    and_then (new_cookie_slot p.patterns text none) (λ fresh.
      let slot = record fresh {
        account_id = some row.id;
        auth_method = cookie;
        proxy_url = row.proxy_url;
        email = row.email;
        account_type = row.account_type;
      } in
      let merged = with_runtime (or_else mem_runtime row.runtime) slot in
      some (record merged { reset_time = active_reset_time clock row })))
