-- ===== src/Examples/Streams.antt =====
-- The theorems on the translation of streams, at a message with text, a tool call and thinking.
use text.Mathlib.Text.{◌==◌ as str_eq}
use clewdr_hub.Common.{String, Option, if◌then◌else◌, true, none, some, List, [], ◌∷◌, map, pos}
use clewdr_hub.Openai.{
  Usage, StreamUsage, tool_use, message_start, content_block_start, content_block_delta,
  message_delta, message_stop, input_json_delta, tool_use_block,
}
use clewdr_hub.Openai.Response.{build_chat_completion}
use clewdr_hub.Openai.Stream.{new_stream_state, Item, event, skipped, broken, drive}
use clewdr_hub.Openai.Stream.Frame.{IsFramed, drive-IsFramed}
use clewdr_hub.Openai.Stream.Tools.{IsIndexed, drive-IsIndexed}
use clewdr_hub.Openai.Stream.Collect.{
  Streamed, text_pieces, tool_pieces, thinking_pieces, blocks_events, blocks_of, assemble,
  nothing_assembled,
}
use clewdr_hub.Openai.Stream.Collect.Whole.{IsSame, drive-IsSame}

abbrev as_is : String → String
as_is e = e

abbrev counted : Usage
counted = record {
  input_tokens = 7;
  output_tokens = 0;
  cache_creation_input_tokens = none;
  cache_read_input_tokens = some 2;
}

abbrev counted_last : StreamUsage
counted_last = record {
  input_tokens = 0;
  output_tokens = 5;
  cache_creation_input_tokens = none;
  cache_read_input_tokens = none;
}

-- What serde_json prints of the inputs in use.
abbrev compact : String → Option String
compact input = some (if str_eq input "{\"a\": 1}" then "{\"a\":1}" else input)

abbrev message : List Streamed
message =
    thinking_pieces "sig" ("hm" ∷ "m" ∷ [])
    ∷ text_pieces ("he" ∷ "llo" ∷ [])
    ∷ tool_pieces "t0" "list" []
    ∷ tool_pieces "t1" "look" ("{\"a\"" ∷ ": 1}" ∷ [])
    ∷ []

-- A stream that opens a tool call and then breaks off.
abbrev broken_items : List Item
broken_items =
    event (message_start "m" (some counted))
    ∷ event (content_block_start 0 (tool_use_block "t1" "look" "{}"))
    ∷ skipped
    ∷ event (content_block_delta 0 (input_json_delta "{}"))
    ∷ broken "reset"
    ∷ []

drive-IsSame_example :
    IsSame compact
      (assemble
        (drive as_is (new_stream_state "c" (pos 9) "asked") true true (
          map event (
            message_start "m" (some counted)
            ∷ blocks_events 0 message
                (message_delta (some tool_use) (some counted_last) ∷ message_stop ∷ []))))
        nothing_assembled)
      (build_chat_completion compact "c"
        (pos 9)
        (record {
          content = blocks_of message;
          model = "m";
          stop_reason = some tool_use;
          usage = some counted;
        })
        true)
drive-IsSame_example =
    drive-IsSame as_is compact true true "c" (pos 9) "asked" "m" message (some tool_use)
      (some counted) (some counted_last) (some counted)

drive-IsFramed_example :
    IsFramed (drive as_is (new_stream_state "c" (pos 9) "asked") true true broken_items)
drive-IsFramed_example = drive-IsFramed as_is true true "c" (pos 9) "asked" broken_items

drive-IsIndexed_example :
    IsIndexed 0 (drive as_is (new_stream_state "c" (pos 9) "asked") true true broken_items)
drive-IsIndexed_example = drive-IsIndexed as_is true true "c" (pos 9) "asked" broken_items
