-- ===== src/Openai/Stream/Collect.antt =====
-- src/middleware/openai: a message that is streamed, and what a client puts together from the chunks. This is an
-- independent description of both protocols, which the translation stands between.
pub mod Steps
pub mod Blocks
pub mod Whole
use Prim.Native.String.{◌++◌ as push_str}
use text.Mathlib.Text.{◌==◌ as str_eq}
use clewdr_hub.Common.{
  ℕ, ◌+◌, String, Option, none, some, List, [], ◌∷◌, ◌++◌, unwrap_or, modify, if◌then◌else◌,
}
use clewdr_hub.Openai.{
  ContentBlock, text_block, tool_use_block, thinking_block, fallback_block, other_block, OtherBlock,
  text_delta, input_json_delta, thinking_delta, signature_delta, StreamEvent, content_block_start,
  content_block_delta, content_block_stop, DeltaToolCall, Delta, StreamChoice, ToolCall,
}
use clewdr_hub.Openai.Stream.{StreamPayload, chunk, failed}

-- A block as the upstream streams it: its text, its thinking or its input in pieces.
pub data Streamed : Type 0 where
  text_pieces : List String → Streamed
  tool_pieces : String → String → List String → Streamed
  thinking_pieces : String → List String → Streamed
  fallback_to : Option String → Streamed
  whole_block : OtherBlock → Streamed

unfoldable pub join : List String → String
join [] = ""
join (p ∷ ps) = push_str p (join ps)

-- The input that the pieces of a tool call make; without any text it stays the `{}` of the start.
abbrev pub input_text : String → String
input_text s = if str_eq s "" then "{}" else s

-- The block that the pieces make.
unfoldable pub block_of : Streamed → ContentBlock
block_of (text_pieces ps) = text_block (join ps)
block_of (tool_pieces id name ps) = tool_use_block id name (input_text (join ps))
block_of (thinking_pieces signature ps) = thinking_block signature (join ps)
block_of (fallback_to target) = fallback_block target
block_of (whole_block b) = other_block b

unfoldable pub piece_events :
    (String → StreamEvent) → List String → List StreamEvent → List StreamEvent
piece_events event_of [] rest = rest
piece_events event_of (p ∷ ps) rest = event_of p ∷ piece_events event_of ps rest

-- The events of a block with the index `i`, and then the rest.
unfoldable pub block_events : ℕ → Streamed → List StreamEvent → List StreamEvent
block_events i (text_pieces ps) rest =
    content_block_start i (text_block "")
    ∷ piece_events (λ p. content_block_delta i (text_delta p)) ps (content_block_stop i ∷ rest)
block_events i (tool_pieces id name ps) rest =
    content_block_start i (tool_use_block id name "{}")
    ∷ piece_events (λ p. content_block_delta i (input_json_delta p)) ps
        (content_block_stop i ∷ rest)
block_events i (thinking_pieces signature ps) rest =
    content_block_start i (thinking_block "" "")
    ∷ piece_events (λ p. content_block_delta i (thinking_delta p)) ps
        (content_block_delta i (signature_delta signature) ∷ content_block_stop i ∷ rest)
block_events i (fallback_to target) rest =
    content_block_start i (fallback_block target) ∷ content_block_stop i ∷ rest
block_events i (whole_block b) rest =
    content_block_start i (other_block b) ∷ content_block_stop i ∷ rest

unfoldable pub blocks_events : ℕ → List Streamed → List StreamEvent → List StreamEvent
blocks_events i [] rest = rest
blocks_events i (b ∷ bs) rest = block_events i b (blocks_events (i + 1) bs rest)

unfoldable pub blocks_of : List Streamed → List ContentBlock
blocks_of [] = []
blocks_of (b ∷ bs) = block_of b ∷ blocks_of bs

-- What a client of the OpenAI protocol has put together; the tool calls by their index.
pub record Assembled : Type 0 where
  pub content : String
  pub calls : List (ℕ × ToolCall)
  pub reasoning : String
  pub finish_reason : Option String

abbrev pub nothing_assembled : Assembled
nothing_assembled = record { content = ""; calls = []; reasoning = ""; finish_reason = none }

abbrev pub add_text : String → Option String → String
add_text s none = s
add_text s (some t) = push_str s t

abbrev pub add_arguments : String → ToolCall → ToolCall
add_arguments t c = record c { arguments = push_str c.arguments t }

-- A call with an id is new; one without goes on with the call of its index.
abbrev pub add_call_by_id :
    DeltaToolCall → Option String → List (ℕ × ToolCall) → List (ℕ × ToolCall)
add_call_by_id t (some id) calls =
    calls
    ++ (
      t.index,
      record {
        id = id;
        kind = unwrap_or t.kind "";
        name = unwrap_or t.function.name "";
        arguments = unwrap_or t.function.arguments "";
      },
    )
      ∷ []
add_call_by_id t none calls =
    modify t.index (add_arguments (unwrap_or t.function.arguments "")) calls

unfoldable pub add_calls : List DeltaToolCall → List (ℕ × ToolCall) → List (ℕ × ToolCall)
add_calls [] calls = calls
add_calls (t ∷ ts) calls = add_calls ts (add_call_by_id t t.id calls)

abbrev pub add_choice : StreamChoice → Assembled → Assembled
add_choice c a = record {
  content = add_text a.content c.delta.content;
  calls = add_calls (unwrap_or c.delta.tool_calls []) a.calls;
  reasoning = add_text a.reasoning c.delta.reasoning_content;
  finish_reason = elim c.finish_reason [ none ↦ a.finish_reason | some f ↦ some f ];
}

abbrev pub add_choices : List StreamChoice → Assembled → Assembled
add_choices [] a = a
add_choices (c ∷ cs) a = add_choice c a

abbrev pub absorb : StreamPayload → Assembled → Assembled
absorb (failed e) a = a
absorb (chunk c) a = add_choices c.choices a

unfoldable pub assemble : List StreamPayload → Assembled → Assembled
assemble [] a = a
assemble (p ∷ ps) a = assemble ps (absorb p a)

-- A call whose arguments are the input printed by serde_json, as `collect_block` prints it.
abbrev pub reprinted : (String → Option String) → ToolCall → ToolCall
reprinted to_string c = record c { arguments = unwrap_or (to_string (input_text c.arguments)) "{}" }
