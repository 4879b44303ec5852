-- ===== src/Openai.antt =====
-- src/types/claude.rs and src/types/openai.rs: the shapes that the OpenAI endpoint translates between. JSON values are
-- kept as their text, and tokens are 32-bit numbers.
pub mod Response
pub mod Stream
use clewdr_hub.Common.{ℕ, String, Option, none, List, ℤ}

-- `StopReason`.
pub data StopReason : Type 0 where
  end_turn max_tokens stop_sequence tool_use pause_turn refusal model_context_window_exceeded :
      StopReason

-- `Usage` of claude.rs.
pub record Usage : Type 0 where
  pub input_tokens : ℕ
  pub output_tokens : ℕ
  pub cache_creation_input_tokens : Option ℕ
  pub cache_read_input_tokens : Option ℕ

-- `StreamUsage`.
pub record StreamUsage : Type 0 where
  pub input_tokens : ℕ
  pub output_tokens : ℕ
  pub cache_creation_input_tokens : Option ℕ
  pub cache_read_input_tokens : Option ℕ

-- The constructors of `ContentBlock` that no part of the translation looks into.
pub data OtherBlock : Type 0 where
  image image_url document search_result redacted_thinking tool_result tool_reference
        server_tool_use :
      OtherBlock
  web_search_tool_result web_fetch_tool_result code_execution_tool_result : OtherBlock
  bash_code_execution_tool_result text_editor_code_execution_tool_result : OtherBlock
  tool_search_tool_result mcp_tool_use mcp_tool_result container_upload : OtherBlock

-- `ContentBlock`, with the fields that are read: of a text its text, of a tool call its id, its name and its input,
-- of a thinking block its signature and its thinking, and of a fallback the model that
-- `fallback_target_model` finds in its details.
pub data ContentBlock : Type 0 where
  text_block : String → ContentBlock
  tool_use_block : String → String → String → ContentBlock
  thinking_block : String → String → ContentBlock
  fallback_block : Option String → ContentBlock
  other_block : OtherBlock → ContentBlock

-- `ContentBlockDelta`.
pub data ContentBlockDelta : Type 0 where
  text_delta input_json_delta thinking_delta signature_delta : String → ContentBlockDelta

-- `StreamEvent`, with the fields that are read.
pub data StreamEvent : Type 0 where
  message_start : String → Option Usage → StreamEvent
  content_block_start : ℕ → ContentBlock → StreamEvent
  content_block_delta : ℕ → ContentBlockDelta → StreamEvent
  content_block_stop : ℕ → StreamEvent
  message_delta : Option StopReason → Option StreamUsage → StreamEvent
  message_stop ping : StreamEvent
  error : String → String → StreamEvent

-- `CreateMessageResponse`, with the fields that are read.
pub record CreateMessageResponse : Type 0 where
  pub content : List ContentBlock
  pub model : String
  pub stop_reason : Option StopReason
  pub usage : Option Usage

-- `UsageOut`, its details among the fields: they are always there.
pub record UsageOut : Type 0 where
  pub prompt_tokens : ℕ
  pub completion_tokens : ℕ
  pub total_tokens : ℕ
  pub cached_tokens : ℕ

-- `DeltaFunction`.
pub record DeltaFunction : Type 0 where
  pub name : Option String
  pub arguments : Option String

-- `DeltaToolCall`.
pub record DeltaToolCall : Type 0 where
  pub index : ℕ
  pub id : Option String
  pub kind : Option String
  pub function : DeltaFunction

-- `Delta`.
pub record Delta : Type 0 where
  pub role : Option String
  pub content : Option String
  pub tool_calls : Option (List DeltaToolCall)
  pub reasoning_content : Option String

-- `Delta::default()`.
abbrev pub no_delta : Delta
no_delta = record { role = none; content = none; tool_calls = none; reasoning_content = none }

-- `StreamChoice`.
pub record StreamChoice : Type 0 where
  pub index : ℕ
  pub delta : Delta
  pub finish_reason : Option String

-- `ChatCompletionChunk`, without its constant `object`.
pub record ChatCompletionChunk : Type 0 where
  pub id : String
  pub created : ℤ
  pub model : String
  pub choices : List StreamChoice
  pub usage : Option UsageOut

-- `OpenAIErrorBody`; its code and its param are `None` wherever the translation makes one.
pub record OpenaiErrorBody : Type 0 where
  pub message : String
  pub kind : String

-- `ToolCall` with its `FunctionCall`. Its id and its kind are always there.
pub record ToolCall : Type 0 where
  pub id : String
  pub kind : String
  pub name : String
  pub arguments : String

-- `AssistantMessage`, without its constant role.
pub record AssistantMessage : Type 0 where
  pub content : Option String
  pub tool_calls : Option (List ToolCall)
  pub reasoning_content : Option String

-- `ChatCompletion` with its one `Choice`, without the constants.
pub record ChatCompletion : Type 0 where
  pub id : String
  pub created : ℤ
  pub model : String
  pub message : AssistantMessage
  pub finish_reason : String
  pub usage : UsageOut
