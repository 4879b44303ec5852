-- ===== src/Examples/Bridges.antt =====
-- The concrete streams that the theorems on the accumulator are applied to.
use text.Mathlib.Text.{◌==◌ as str_eq}
use clewdr_hub.Common.{◌≡◌, refl, String, Option, none, some, List, [], ◌∷◌, if◌then◌else◌}
use clewdr_hub.Json.{
  Json, string, number, array, object, Items, nil, cons, Fields, end, field, get_field,
  insert_field,
}
use clewdr_hub.Bridge.{ok, empty_accumulator, merge_fields, accumulate}
use clewdr_hub.Bridge.Rebuild.{
  StreamedBlock, text_block, tool_block, join, message_events, blocks_events, block_events,
  piece_events,
}
use clewdr_hub.Bridge.Rebuild.Whole.{accumulate-rebuilds}

-- `{"type":"message","content":[],"usage":{"input_tokens":9,"output_tokens":1}}`, a text in two pieces, and a call.
abbrev first_usage : Fields
first_usage = field "input_tokens" (number 9) (field "output_tokens" (number 1) end)

abbrev last_usage : Fields
last_usage = field "output_tokens" (number 12) end

abbrev opened : Fields
opened =
    field "type" (string "message")
      (field "content" (array nil) (field "usage" (object first_usage) end))

abbrev streamed : List StreamedBlock
streamed =
    text_block (field "type" (string "text") end) ("Hel" ∷ "lo" ∷ [])
    ∷ tool_block (field "name" (string "ls") end) ("{\"n\"" ∷ ":1}" ∷ [])
    ∷ []

abbrev whole : Items
whole = cons (object (field "text" (string "Hello") (field "type" (string "text") end))) (
    cons
      (object (field "input" (object (field "n" (number 1) end)) (field "name" (string "ls") end)))
      nil)

abbrev sent : List Json
sent = message_events opened streamed (string "tool_use") last_usage

abbrev texts : List String
texts = "0" ∷ "1" ∷ "2" ∷ "3" ∷ "4" ∷ "5" ∷ "6" ∷ "7" ∷ "8" ∷ "9" ∷ "10" ∷ []

abbrev lookup_text : List String → List Json → String → Option Json
lookup_text [] events t = none
lookup_text (s ∷ ss) [] t = none
lookup_text (s ∷ ss) (e ∷ es) t =
    let rest = lookup_text ss es t in if str_eq s t then some e else rest

abbrev parse_text : String → Option Json
parse_text t =
    if str_eq t "{\"n\":1}"
    then some (object (field "n" (number 1) end))
    else lookup_text texts sent t

accumulate-rebuilds_example :
    accumulate parse_text empty_accumulator texts
    ≡ ok (
        object (
          field "type" (string "message") (
            field "content" (array whole) (
              field "usage"
                (object (field "input_tokens" (number 9) (field "output_tokens" (number 12) end)))
                (field "stop_reason" (string "tool_use") end)))))
unfolding get_field insert_field join blocks_events block_events piece_events merge_fields
accumulate-rebuilds_example =
    accumulate-rebuilds parse_text opened first_usage last_usage (string "tool_use") streamed whole
      texts refl refl (refl, ((object (field "n" (number 1) end), refl, refl), tt))
      (refl, (refl, (refl, (refl, (refl, (refl, (refl, (refl, (refl, (refl, (refl, tt)))))))))))
