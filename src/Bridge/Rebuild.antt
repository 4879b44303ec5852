-- ===== src/Bridge/Rebuild.antt =====
-- src/claude_code_state/chat.rs: a message as the upstream streams it to the accumulator, and the same message whole.
pub mod Steps
pub mod Whole
use Prim.Native.String.{◌++◌ as push_str}
use clewdr_hub.Common.{ℕ, ◌+◌, ◌≡◌, String, Option, some, List, [], ◌∷◌}
use clewdr_hub.Json.{Json, string, number, array, object, Items, nil, cons, Fields, end, field}

unfoldable pub join : List String → String
join [] = ""
join (p ∷ ps) = push_str p (join ps)

-- A block as the upstream streams it, its other entries apart: a text, a thinking block with its signature, and a tool
-- call, in pieces.
pub data StreamedBlock : Type 0 where
  text_block : Fields → List String → StreamedBlock
  thinking_block : Fields → List String → String → StreamedBlock
  tool_block : Fields → List String → StreamedBlock

-- An event of a type, with an entry.
abbrev pub event_of : String → Fields → Json
event_of kind fs = object (field "type" (string kind) fs)

abbrev pub block_delta : ℕ → String → String → String → Json
block_delta i kind key piece = event_of "content_block_delta" (
    field "index" (number i)
      (field "delta" (object (field "type" (string kind) (field key (string piece) end))) end))

abbrev pub block_start : ℕ → Fields → Json
block_start i fs =
    event_of "content_block_start"
      (field "index" (number i) (field "content_block" (object fs) end))

abbrev pub block_stop : ℕ → Json
block_stop i = event_of "content_block_stop" (field "index" (number i) end)

unfoldable pub piece_events : (String → Json) → List String → List Json → List Json
piece_events event_for [] rest = rest
piece_events event_for (p ∷ ps) rest = event_for p ∷ piece_events event_for ps rest

unfoldable pub block_events : ℕ → StreamedBlock → List Json → List Json
block_events i (text_block fs ps) rest =
    block_start i (field "text" (string "") fs)
    ∷ piece_events (block_delta i "text_delta" "text") ps (block_stop i ∷ rest)
block_events i (thinking_block fs ps signature) rest =
    block_start i (field "thinking" (string "") (field "signature" (string "") fs))
    ∷ piece_events (block_delta i "thinking_delta" "thinking") ps
        (block_delta i "signature_delta" "signature" signature ∷ block_stop i ∷ rest)
block_events i (tool_block fs ps) rest =
    block_start i (field "input" (object end) fs)
    ∷ piece_events (block_delta i "input_json_delta" "partial_json") ps (block_stop i ∷ rest)

unfoldable pub blocks_events : ℕ → List StreamedBlock → List Json → List Json
blocks_events i [] rest = rest
blocks_events i (b ∷ bs) rest = block_events i b (blocks_events (i + 1) bs rest)

module _ (parse : String → Option Json) where
  -- The input of a tool call: what its pieces parse to together; `{}` if there are none.
  abbrev pub IsInput : List String → Json → Type 0
  IsInput [] input = input ≡ object end
  IsInput (p ∷ ps) input = parse (join (p ∷ ps)) ≡ some input

  -- The block that the pieces make.
  abbrev pub IsMade : StreamedBlock → Json → Type 0
  IsMade (text_block fs ps) v = v ≡ object (field "text" (string (join ps)) fs)
  IsMade (thinking_block fs ps signature) v =
      v ≡ object (field "thinking" (string (join ps)) (field "signature" (string signature) fs))
  IsMade (tool_block fs ps) v =
      (input : Json) × IsInput ps input × (v ≡ object (field "input" input fs))

  abbrev pub AreMade : List StreamedBlock → Items → Type 0
  AreMade [] nil = Unit {0}
  AreMade [] (cons v vs) = ⊥
  AreMade (b ∷ bs) nil = ⊥
  AreMade (b ∷ bs) (cons v vs) = IsMade b v × AreMade bs vs

  -- Texts that parse to events.
  abbrev pub AreParsed : List String → List Json → Type 0
  AreParsed [] [] = Unit {0}
  AreParsed [] (e ∷ es) = ⊥
  AreParsed (t ∷ ts) [] = ⊥
  AreParsed (t ∷ ts) (e ∷ es) = (parse t ≡ some e) × AreParsed ts es

-- The events of a message that is streamed whole.
abbrev pub message_events : Fields → List StreamedBlock → Json → Fields → List Json
message_events message blocks stop_reason usage =
    event_of "message_start" (field "message" (object message) end)
    ∷ blocks_events 0 blocks (
        event_of "message_delta" (
          field "delta" (object (field "stop_reason" stop_reason end))
            (field "usage" (object usage) end))
        ∷ event_of "message_stop" end
        ∷ [])
