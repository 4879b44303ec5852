-- ===== src/Openai/Response.antt =====
-- src/middleware/openai/response.rs: the translation of a whole message. The id and the time of a completion are
-- arguments. The input of a tool call is the JSON text that it is parsed from; what `serde_json::to_string` prints of a
-- parsed input is a parameter, since the crate chooses the spacing and the order of the keys.
use Prim.Native.String.{◌++◌ as push_str}
use text.Mathlib.Text.{◌==◌ as str_eq}
use clewdr_hub.Common.{
  ℕ, ◌+◌, ◌%◌, ◌^◌, String, Bool, true, false, ◌||◌, Option, none, some, List, [], ◌∷◌, ◌++◌,
  if◌then◌else◌, unwrap_or, ℤ,
}
use clewdr_hub.Openai.{
  StopReason, max_tokens, tool_use, refusal, model_context_window_exceeded, Usage, UsageOut,
  ContentBlock, text_block, tool_use_block, thinking_block, CreateMessageResponse, ToolCall,
  ChatCompletion,
}

abbrev of_stop_reason : Option StopReason → String
of_stop_reason (some tool_use) = "tool_calls"
of_stop_reason (some max_tokens) = "length"
of_stop_reason (some model_context_window_exceeded) = "length"
of_stop_reason (some refusal) = "content_filter"
of_stop_reason _ = "stop"

-- `map_stop_reason`.
unfoldable pub map_stop_reason : Option StopReason → Bool → String
map_stop_reason stop_reason has_tool_calls =
    if has_tool_calls then "tool_calls" else of_stop_reason stop_reason

-- `anthropic_type_to_oai`.
unfoldable pub anthropic_type_to_oai : String → String
anthropic_type_to_oai t =
    if str_eq t "rate_limited" || str_eq t "overloaded_error" || str_eq t "rate_limit_error"
    then "rate_limit_exceeded"
    else if str_eq t "authentication_error"
    then "authentication_error"
    else if str_eq t "permission_error"
    then "permission_error"
    else if str_eq t "invalid_request_error"
    then "invalid_request_error"
    else if str_eq t "not_found_error"
    then "not_found_error"
    else "api_error"

-- The sums of an `UsageOut`, in u32.
unfoldable pub usage_out : ℕ → ℕ → ℕ → ℕ → UsageOut
usage_out input output creation read = record {
  prompt_tokens = (input + creation + read) % 2 ^ 32;
  completion_tokens = output;
  total_tokens = ((input + creation + read) % 2 ^ 32 + output) % 2 ^ 32;
  cached_tokens = read;
}

-- `map_usage`.
unfoldable pub map_usage : Option Usage → UsageOut
map_usage none = usage_out 0 0 0 0
map_usage (some u) =
    usage_out u.input_tokens u.output_tokens (unwrap_or u.cache_creation_input_tokens 0)
      (unwrap_or u.cache_read_input_tokens 0)

-- The variables of the loop over the blocks.
pub record Collected : Type 0 where
  pub content_str : String
  pub tool_calls : List ToolCall
  pub reasoning_str : String

abbrev pub nothing_collected : Collected
nothing_collected = record { content_str = ""; tool_calls = []; reasoning_str = "" }

unfoldable pub collect_block :
    (String → Option String) → Bool → ContentBlock → Collected → Collected
collect_block to_string include_reasoning (text_block t) c = record c {
  content_str = push_str c.content_str t;
}
collect_block to_string include_reasoning (tool_use_block id name input) c = record c {
  tool_calls =
      c.tool_calls
      ++ record {
        id = id;
        kind = "function";
        name = name;
        arguments = unwrap_or (to_string input) "{}";
      }
        ∷ [];
}
collect_block to_string include_reasoning (thinking_block signature t) c =
    if include_reasoning then record c { reasoning_str = push_str c.reasoning_str t } else c
collect_block to_string include_reasoning _ c = c

unfoldable pub collect_blocks :
    (String → Option String) → Bool → List ContentBlock → Collected → Collected
collect_blocks to_string include_reasoning [] c = c
collect_blocks to_string include_reasoning (b ∷ bs) c =
    collect_blocks to_string include_reasoning bs (collect_block to_string include_reasoning b c)

abbrev pub has_any : List ToolCall → Bool
has_any [] = false
has_any (t ∷ ts) = true

-- `(!s.is_empty()).then_some(s)`.
abbrev pub unless_empty : String → Option String
unless_empty s = if str_eq s "" then none else some s

-- `build_chat_completion`.
unfoldable pub build_chat_completion :
    (String → Option String) → String → ℤ → CreateMessageResponse → Bool → ChatCompletion
build_chat_completion to_string id created upstream include_reasoning =
    let c = collect_blocks to_string include_reasoning upstream.content nothing_collected in
    record {
      id = id;
      created = created;
      model = upstream.model;
      message = record {
        content = unless_empty c.content_str;
        tool_calls = if has_any c.tool_calls then some c.tool_calls else none;
        reasoning_content = unless_empty c.reasoning_str;
      };
      finish_reason = map_stop_reason upstream.stop_reason (has_any c.tool_calls);
      usage = map_usage upstream.usage;
    }
